-- ===== src/Maps/Active.antt =====
-- server/fleet/map_publication.go: the active rows, through one pass over the table.
use manage_robot.Common.{
  ◌≤◌, ◌≡◌, inl, inr, Bool, true, false, not, ◌&&◌, ◌||◌, List, String, str_eq, eq_iff, map, all, ℤ,
  Bool-cases, arith,
}
use manage_robot.Maps.Data.{State, active, Publication}
use manage_robot.Maps.Ack.{MapAck, is_active, supersede, roll_back, reactivate, record_ack}
use manage_robot.Maps.Rows.{
  count, active_of, has_id, count-map, all-map, all-map_gives, all-both, count-count, all-true,
}

-- No two rows have an identifier in common, and no two active ones a vehicle.
abbrev pub OneActive : List Publication → Type 0
OneActive ps =
    ((id : String) → count (has_id id) ps ≤ 1) × ((v : String) → count (active_of v) ps ≤ 1)

-- A pass that keeps the identifiers keeps their counts.
pub ids-map :
    (f : Publication → Publication) (ps : List Publication) (id : String)
    → ((p : Publication) → (f p).id ≡ p.id)
    → count (has_id id) ps ≤ 1
    → count (has_id id) (map f ps) ≤ 1
ids-map f ps id h few =
    omega
      (arith, count-map (λ p. true) (has_id id) f ps (λ p k t. ground (arith, h p)) (all-true ps))

-- A pass that makes no row active keeps the counts.
pub quiet-OneActive :
    (f : Publication → Publication) (ps : List Publication)
    → ((p : Publication) → (f p).id ≡ p.id)
    → ((p : Publication) → (v : String) → active_of v (f p) ≡ true → active_of v p ≡ true)
    → OneActive ps
    → OneActive (map f ps)
quiet-OneActive f ps h k (ids, ones) = (
  λ id. ids-map f ps id h (ids id),
  λ v.
      omega
        (arith, ones v, count-map (λ p. true) (active_of v) f ps (λ p t a. k p v a) (all-true ps)),
)

pub supersede-OneActive :
    (at : ℤ) (v a b : String) (ps : List Publication)
    → OneActive ps
    → OneActive (supersede at v a b ps)
unfolding supersede
supersede-OneActive at v a b ps one =
    quiet-OneActive _ ps (λ p. ground arith) (λ p w h. ground arith) one

pub roll_back-OneActive :
    (at : ℤ) (v id : String) (ps : List Publication)
    → OneActive ps
    → OneActive (roll_back at v id ps)
unfolding roll_back
roll_back-OneActive at v id ps one =
    quiet-OneActive _ ps (λ p. ground arith) (λ p w h. ground arith) one

-- The active rows of the vehicle have that identifier.
abbrev pub Only : String → String → List Publication → Type 0
Only v id ps = all (λ p. not (active_of v p) || has_id id p) ps ≡ true

pub supersede-Only :
    (at : ℤ) (v id : String) (ps : List Publication) → Only v id (supersede at v id id ps)
unfolding supersede
supersede-Only at v id ps = all-map _ _ ps (λ p. ground arith)

-- Once the one of the two is rolled back, only the other is active.
pub roll_back-Only :
    (at : ℤ) (v a b : String) (ps : List Publication)
    → Only v b (roll_back at v a (supersede at v a b ps))
unfolding roll_back supersede
roll_back-Only at v a b ps =
    all-map_gives (λ p. not (active_of v p) || has_id a p || has_id b p) _ _ _ (λ p h. ground arith)
      (all-map _ _ ps (λ p. ground arith))

-- A pass after which only one row of the vehicle may be active, and that makes none of another active.
loud-OneActive :
    (known : Publication → Bool) (f : Publication → Publication) (v id : String)
    (ps : List Publication)
    → ((p : Publication) → (f p).id ≡ p.id)
    → ((p : Publication) → known p ≡ true → (not (active_of v (f p)) || has_id id (f p)) ≡ true)
    → ((p : Publication) (w : String)
        → str_eq w v ≡ false
        → known p ≡ true
        → active_of w (f p) ≡ true
        → active_of w p ≡ true)
    → all known ps ≡ true
    → OneActive ps
    → OneActive (map f ps)
loud-OneActive known f v id ps same only others k (ids, ones) = (
  ids',
  λ w. elim (Bool-cases (str_eq w v)) [
    | inl his ↦
        let e : w ≡ v = ground (arith, eq_iff w v) in
        rw e (
          omega (
            arith,
            ids' id,
            count-count (active_of v) (has_id id) (map f ps) (all-map_gives known _ f ps only k),
          ))
    | inr other ↦
        omega (arith, ones w, count-map known (active_of w) f ps (λ p t a. others p w other t a) k)
  ],
)
  where
    ids' : (j : String) → count (has_id j) (map f ps) ≤ 1
    ids' j = ids-map f ps j same (ids j)

pub reactivate-OneActive :
    (at : ℤ) (v id : String) (ps : List Publication)
    → OneActive ps
    → Only v id ps
    → OneActive (reactivate at v id ps)
unfolding reactivate
reactivate-OneActive at v id ps one only =
    loud-OneActive (λ p. not (active_of v p) || has_id id p) _ v id ps (λ p. ground arith)
      (λ p h. ground arith)
      (λ p w other h a. ground (arith, eq_iff p.vehicle_id w, eq_iff p.vehicle_id v, eq_iff w v))
      only one

-- A record of the acknowledgement that leaves the row inactive.
pub record_ack-OneActive :
    (next : State) (ack : MapAck) (name : String) (now : ℤ) (ps : List Publication)
    → is_active next ≡ false
    → OneActive ps
    → OneActive (record_ack next ack name now ps)
unfolding record_ack
record_ack-OneActive next ack name now ps idle one =
    quiet-OneActive _ ps (λ p. ground arith) (λ p w h. ground arith) one

-- One that makes it active, where no other of its vehicle is.
pub record_active-OneActive :
    (ack : MapAck) (name : String) (now : ℤ) (v : String) (ps : List Publication)
    → all (λ q. not (has_id ack.publication_id q) || str_eq q.vehicle_id v) ps ≡ true
    → Only v ack.publication_id ps
    → OneActive ps
    → OneActive (record_ack active ack name now ps)
unfolding record_ack
record_active-OneActive ack name now v ps own only one =
    loud-OneActive
      (λ q.
        (not (has_id ack.publication_id q) || str_eq q.vehicle_id v)
        && (not (active_of v q) || has_id ack.publication_id q))
      _ v ack.publication_id ps (λ p. ground arith) (λ p h. ground arith)
      (λ p w other h a. ground (arith, eq_iff p.vehicle_id w, eq_iff p.vehicle_id v, eq_iff w v))
      (all-both _ _ ps own only) one
