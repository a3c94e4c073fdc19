-- ===== src/Cache/Laws.antt =====
-- What one caller reads back: the last value set, until it expires.
use argos_fx.Prelude.{
  ◌≤◌, ◌≡◌, inl, inr, false, Option, none, some, arith, ite, ltb, if◌then◌else◌, Option-cases,
}
use argos_fx.Text.{Text, text_discrete}
use argos_fx.Clock.{Time, add_duration}
use argos_fx.Assoc.{get-put, get-remove}
use argos_fx.Cache.{Cache, Item, find, is_expired, delete, get, set}

module _ {V : Type 0} (c : Cache V) where
  pub find-set :
      (k q : Text) (v : V) (t : Time)
      → find q (set k v t c)
        ≡ ite
            (text_discrete k q)
            (some (record { value = v; expires_at = add_duration t c.ttl }))
            (find q c)
  unfolding find set
  find-set k q v t = get-put text_discrete k q _ c.items

  pub find-delete : (k q : Text) → find q (delete k c) ≡ ite (text_discrete k q) none (find q c)
  unfolding find delete
  find-delete k q = get-remove text_discrete k q c.items

  -- What an entry is worth at a time.
  abbrev live : Time → Option (Item V) → Option V
  live t none = none
  live t (some it) = if is_expired t it then none else some it.value

  get-live : (k : Text) (t : Time) → (get k t c).0 ≡ live t (find k c)
  unfolding get
  get-live k t = ground arith

  -- A value comes from an entry that has not expired.
  pub get_hit :
      (k : Text) (t : Time) (v : V)
      → (get k t c).0 ≡ some v
      → (it : Item V) × (find k c ≡ some it) × (is_expired t it ≡ false) × (it.value ≡ v)
  unfolding get
  get_hit k t v h = elim (Option-cases (find k c)) [
    | inl missing ↦ absurd (ground arith)
    | inr (it, found) ↦ (it, found, ground arith, ground arith)
  ]

  -- `Get` takes out the entry that it finds expired, and no other.
  find-get : (k q : Text) (t u : Time) → t ≤ u → live u (find q (get k t c).1) ≡ live u (find q c)
  unfolding get
  find-get k q t u later = ground (arith, find-delete k q)

module _ {V : Type 0} (c : Cache V) (k q : Text) where
  -- Reading a key after a `Set`: that key has the new value up to its time to live and nothing
  -- after it, and any other key reads as before.
  pub get-set :
      (v : V) (t u : Time)
      → (get q u (set k v t c)).0
        ≡ ite
            (text_discrete k q)
            (if ltb (add_duration t c.ttl) u then none else some v)
            (get q u c).0
  get-set v t u = rw (get-live, find-set, get-live) (ground arith)

  -- A `Get` changes nothing that a `Get` of any key at that time or later can see, though it drops
  -- an entry that has expired.
  pub get-get : (t u : Time) → t ≤ u → (get q u (get k t c).1).0 ≡ (get q u c).0
  get-get t u later = rw (get-live, get-live) (find-get c k q t u later)

  -- After a `Delete` the key is gone, and any other key reads as before.
  pub get-delete :
      (u : Time) → (get q u (delete k c)).0 ≡ ite (text_discrete k q) none (get q u c).0
  get-delete u = rw (get-live, find-delete, get-live) (ground arith)
