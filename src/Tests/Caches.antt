-- ===== src/Tests/Caches.antt =====
-- The cache of responses, with a time to live of ten nanoseconds.
use argos_fx.Prelude.{ℕ, ◌≤◌, ◌≡◌, refl, [], ◌∷◌, none, some, arith}
use argos_fx.Prelude.Int.{pos}
use argos_fx.Text.{codes, text_discrete}
use argos_fx.Clock.{Time, add_duration}
use argos_fx.Assoc.{get, put}
use argos_fx.Cache
use argos_fx.Cache.{Cache, find, set, delete, new_cache}
use argos_fx.Cache.Races.{
  System, Run, get_sees_expired, sets, get_deletes, here, next, store, start, Called, get-Called,
  set_lost,
}

abbrev small : Cache ℕ
small = new_cache (pos 10)

abbrev filled : Cache ℕ
filled = set (codes "k") 7 5 small

abbrev after_set : System ℕ
after_set = record { cache = filled; pending = []; stored = (codes "k", 7, 5) ∷ [] }

get-Called_example :
    (u : Time) × Called (codes "k") 7 u after_set.stored × (12 ≤ add_duration u small.ttl)
unfolding Cache.get set new_cache find get put text_discrete add_duration
get-Called_example =
    get-Called (pos 10) after_set (codes "k") 12 7
      (next here (store (start (pos 10)) (codes "k") 7 5)) refl

set_lost_example :
    ((s : System ℕ) × Run after_set
        (get_sees_expired (codes "k") 20 ∷ sets (codes "k") 8 30 ∷ get_deletes (codes "k") ∷ [])
        s
      × ((Cache.get (codes "k") 30 s.cache).0 ≡ none))
    × ((Cache.get (codes "k") 30 (set (codes "k") 8 30 (Cache.get (codes "k") 20 filled).1)).0
        ≡ some 8)
unfolding set new_cache find get put text_discrete add_duration
set_lost_example =
    set_lost after_set (codes "k") 20 30 (record { value = 7; expires_at = 15 }) 8 refl refl
      (omega arith)
