-- ===== src/Authority/Tables.antt =====
-- What the authority keeps true of its tables, and the lemmas on the single statements.
use manage_robot.Common.{
  ℕ, ◌≤◌, ◌<◌, ◌≡◌, refl, Bool, true, false, ◌&&◌, ◌||◌, Option, List, [], ◌∷◌, String, str_eq,
  eq_iff, if◌then◌else◌, if_cases, ◌==◌, any, All, arith,
}
use manage_robot.Authority.Data.{Lease, Epoch, Db}
use manage_robot.Authority.Guards.{is_active, fencing_of, set_epoch, update_leases, collides}

-- No lease has a token above its vehicle's.
abbrev pub Bounded : List Epoch → List Lease → Type 0
Bounded es = All (λ l. l.fencing ≤ fencing_of l.vehicle_id es)

-- Two leases that are active for one vehicle, or in the hands of one driver.
abbrev pub rivals : Lease → Lease → Bool
rivals l k =
    is_active l.state
    && is_active k.state
    && (str_eq l.vehicle_id k.vehicle_id || str_eq l.driver_id k.driver_id)

-- Two leases of one vehicle with one token.
abbrev pub twins : Lease → Lease → Bool
twins l k = str_eq l.vehicle_id k.vehicle_id && l.fencing == k.fencing

abbrev pub Apart : (Lease → Lease → Bool) → List Lease → Type 0
Apart clash [] = Unit
Apart clash (l ∷ ls) = All (λ k. clash l k ≡ false) ls × Apart clash ls

pub record Inv (db : Db) : Type 0 where
  pub bounded : Bounded db.epochs db.leases
  pub exclusive : Apart rivals db.leases
  pub distinct : Apart twins db.leases

pub fencing_of-set_epoch :
    (v w : String) (n : ℕ) (o : Option String) (es : List Epoch)
    → fencing_of w (set_epoch v n o es) ≡ (if str_eq v w then n else fencing_of w es)
unfolding fencing_of set_epoch
fencing_of-set_epoch v w n o [] = refl
fencing_of-set_epoch v w n o (e ∷ es) = ground (
  arith,
  eq_iff v w,
  eq_iff e.vehicle_id v,
  eq_iff e.vehicle_id w,
  fencing_of-set_epoch v w n o es,
)

pub fencing_of-le-set_epoch :
    (v w : String) (n : ℕ) (o : Option String) (es : List Epoch)
    → fencing_of v es ≤ n
    → fencing_of w es ≤ fencing_of w (set_epoch v n o es)
fencing_of-le-set_epoch v w n o es h = ground (arith, fencing_of-set_epoch v w n o es, eq_iff v w)

pub Bounded-set_epoch :
    (v : String) (n : ℕ) (o : Option String) (es : List Epoch) (ls : List Lease)
    → fencing_of v es ≤ n
    → Bounded es ls
    → Bounded (set_epoch v n o es) ls
Bounded-set_epoch v n o es [] h b = tt
Bounded-set_epoch v n o es (l ∷ ls) h b = (
  omega (arith, fencing_of-le-set_epoch v l.vehicle_id n o es h, b.0),
  Bounded-set_epoch v n o es ls h b.1,
)

-- An UPDATE that keeps the identity of every lease and makes none active.
pub record IsMild (change : Lease → Lease) : Type 0 where
  pub vehicle : (l : Lease) → (change l).vehicle_id ≡ l.vehicle_id
  pub driver : (l : Lease) → (change l).driver_id ≡ l.driver_id
  pub fencing : (l : Lease) → (change l).fencing ≡ l.fencing
  pub state : (l : Lease) → is_active (change l).state ≡ true → is_active l.state ≡ true

module _ (test : Lease → Bool) (change : Lease → Lease) (mild : IsMild change) where
  pub update_leases-Bounded :
      (es : List Epoch) (ls : List Lease)
      → Bounded es ls
      → Bounded es (update_leases test change ls)
  unfolding update_leases
  update_leases-Bounded es [] b = tt
  update_leases-Bounded es (l ∷ ls) b =
      (ground (arith, mild.fencing l, mild.vehicle l), update_leases-Bounded es ls b.1)

  rivals-left :
      (l : Lease) (ls : List Lease)
      → All (λ k. rivals l k ≡ false) ls
      → All (λ k. rivals (change l) k ≡ false) ls
  rivals-left l [] h = tt
  rivals-left l (k ∷ ls) h =
      (ground (arith, mild.vehicle l, mild.driver l, mild.state l), rivals-left l ls h.1)

  rivals-right :
      (l : Lease) (ls : List Lease)
      → All (λ k. rivals l k ≡ false) ls
      → All (λ k. rivals l k ≡ false) (update_leases test change ls)
  unfolding update_leases
  rivals-right l [] h = tt
  rivals-right l (k ∷ ls) h =
      (ground (arith, mild.vehicle k, mild.driver k, mild.state k), rivals-right l ls h.1)

  pub update_leases-exclusive :
      (ls : List Lease) → Apart rivals ls → Apart rivals (update_leases test change ls)
  unfolding update_leases
  update_leases-exclusive [] h = tt
  update_leases-exclusive (l ∷ ls) h = (
    (let rest = update_leases test change ls in
        let kept = rivals-right l ls h.0 in
        if_cases (λ x. All (λ k. rivals x k ≡ false) rest) (test l) (change l) l
          (λ _. rivals-left l rest kept) (λ _. kept)),
    update_leases-exclusive ls h.1,
  )

  twins-right :
      (l : Lease) (ls : List Lease)
      → All (λ k. twins l k ≡ false) ls
      → All (λ k. twins l k ≡ false) (update_leases test change ls)
  unfolding update_leases
  twins-right l [] h = tt
  twins-right l (k ∷ ls) h = (ground (arith, mild.vehicle k, mild.fencing k), twins-right l ls h.1)

  twins-left :
      (l : Lease) (ls : List Lease)
      → All (λ k. twins l k ≡ false) ls
      → All (λ k. twins (change l) k ≡ false) ls
  twins-left l [] h = tt
  twins-left l (k ∷ ls) h = (ground (arith, mild.vehicle l, mild.fencing l), twins-left l ls h.1)

  pub update_leases-distinct :
      (ls : List Lease) → Apart twins ls → Apart twins (update_leases test change ls)
  unfolding update_leases
  update_leases-distinct [] h = tt
  update_leases-distinct (l ∷ ls) h = (
    (let rest = update_leases test change ls in
        let kept = twins-right l ls h.0 in
        if_cases (λ x. All (λ k. twins x k ≡ false) rest) (test l) (change l) l
          (λ _. twins-left l rest kept) (λ _. kept)),
    update_leases-distinct ls h.1,
  )

-- A lease that collides with none has no rival among them.
pub collides-rivals :
    (l : Lease) (ls : List Lease) → any (collides l) ls ≡ false → All (λ k. rivals l k ≡ false) ls
collides-rivals l [] h = tt
collides-rivals l (k ∷ ls) h = (
  ground (
    arith,
    eq_iff l.vehicle_id k.vehicle_id,
    eq_iff k.vehicle_id l.vehicle_id,
    eq_iff l.driver_id k.driver_id,
    eq_iff k.driver_id l.driver_id,
  ),
  collides-rivals l ls (ground arith),
)

-- A token above the vehicle's has no twin.
pub fresh_token :
    (l : Lease) (es : List Epoch) (ls : List Lease)
    → fencing_of l.vehicle_id es < l.fencing
    → Bounded es ls
    → All (λ k. twins l k ≡ false) ls
fresh_token l es [] h b = tt
fresh_token l es (k ∷ ls) h b =
    (ground (arith, eq_iff l.vehicle_id k.vehicle_id), fresh_token l es ls h b.1)
