-- ===== src/Maps/Rows.antt =====
-- server/fleet/map_publication.go: counting rows, and passes over them.
use manage_robot.Common.{
  ℕ, suc, ◌≤◌, ◌≡◌, refl, Bool, true, not, ◌&&◌, ◌||◌, some, List, [], ◌∷◌, String, str_eq, eq_iff,
  map, all, if◌then◌else◌, arith,
}
use manage_robot.Maps.Data.{Publication}
use manage_robot.Maps.Ack.{is_active, find_publication}

-- How many rows pass the test.
abbrev pub count : (Publication → Bool) → List Publication → ℕ
count test [] = 0
count test (p ∷ ps) = let rest = count test ps in if test p then suc rest else rest

-- The row is active and of that vehicle.
abbrev pub active_of : String → Publication → Bool
active_of vehicle p = str_eq p.vehicle_id vehicle && is_active p.state

abbrev pub has_id : String → Publication → Bool
has_id id p = str_eq p.id id

-- A pass that makes no other row pass than passed before does not raise the count. `known` is what is
-- known of each row.
pub count-map :
    (known test : Publication → Bool) (f : Publication → Publication) (ps : List Publication)
    → ((p : Publication) → known p ≡ true → test (f p) ≡ true → test p ≡ true)
    → all known ps ≡ true
    → count test (map f ps) ≤ count test ps
count-map known test f [] h k = omega arith
count-map known test f (p ∷ ps) h k = ground (arith, h p, count-map known test f ps h)

pub all-map :
    (test : Publication → Bool) (f : Publication → Publication) (ps : List Publication)
    → ((p : Publication) → test (f p) ≡ true)
    → all test (map f ps) ≡ true
all-map test f [] h = refl
all-map test f (p ∷ ps) h = ground (arith, h p, all-map test f ps h)

-- What one test says of each row before a pass gives the other after it.
pub all-map_gives :
    (known test : Publication → Bool) (f : Publication → Publication) (ps : List Publication)
    → ((p : Publication) → known p ≡ true → test (f p) ≡ true)
    → all known ps ≡ true
    → all test (map f ps) ≡ true
all-map_gives known test f [] h k = refl
all-map_gives known test f (p ∷ ps) h k = ground (arith, h p, all-map_gives known test f ps h)

pub all-both :
    (one other : Publication → Bool) (ps : List Publication)
    → all one ps ≡ true
    → all other ps ≡ true
    → all (λ p. one p && other p) ps ≡ true
all-both one other [] h k = refl
all-both one other (p ∷ ps) h k = ground (arith, all-both one other ps)

-- When each row that passes the one test passes the other, the counts are in that order.
pub count-count :
    (test wide : Publication → Bool) (ps : List Publication)
    → all (λ p. not (test p) || wide p) ps ≡ true
    → count test ps ≤ count wide ps
count-count test wide [] h = omega arith
count-count test wide (p ∷ ps) h = ground (arith, count-count test wide ps)

pub all-true : (ps : List Publication) → all (λ p. true) ps ≡ true
all-true [] = refl
all-true (p ∷ ps) = all-true ps

none_counted :
    (id vehicle : String) (ps : List Publication)
    → count (has_id id) ps ≤ 0
    → all (λ p. not (has_id id p) || str_eq p.vehicle_id vehicle) ps ≡ true
none_counted id vehicle [] h = refl
none_counted id vehicle (p ∷ ps) h = ground (arith, none_counted id vehicle ps)

-- The row that is found under an identifier of one row is the only one with it.
pub find_publication-only :
    (id : String) (ps : List Publication) (p : Publication)
    → count (has_id id) ps ≤ 1
    → find_publication id ps ≡ some p
    → all (λ q. not (has_id id q) || str_eq q.vehicle_id p.vehicle_id) ps ≡ true
unfolding find_publication
find_publication-only id [] p h found = refl
find_publication-only id (q ∷ ps) p h found = ground (
  arith,
  none_counted id p.vehicle_id ps,
  find_publication-only id ps p,
  eq_iff p.vehicle_id p.vehicle_id,
)

pub find_publication_id :
    (id : String) (ps : List Publication) (p : Publication)
    → find_publication id ps ≡ some p
    → str_eq p.id id ≡ true
unfolding find_publication
find_publication_id id [] p found = ground arith
find_publication_id id (q ∷ ps) p found = ground (arith, find_publication_id id ps p)

-- A pass that keeps the identifiers keeps where a row is found.
pub find_publication-map :
    (f : Publication → Publication) (id : String) (p : Publication) (ps : List Publication)
    → ((q : Publication) → (f q).id ≡ q.id)
    → find_publication id ps ≡ some p
    → find_publication id (map f ps) ≡ some (f p)
unfolding find_publication
find_publication-map f id p [] same found = ground arith
find_publication-map f id p (q ∷ ps) same found =
    ground (arith, same q, find_publication-map f id p ps same)
