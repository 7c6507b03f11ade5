-- ===== src/Crypto/Replay.antt =====
-- `MemoryReplayCache` of sdk/typescript/src/crypto.ts. The `Map` is the list of its entries in order
-- of insertion; instants are milliseconds since the earliest that a `Date` can hold.
use oati.Prelude.{
  ℕ, ◌<◌, Bool, true, false, List, [], ◌∷◌, Option, none, some, ◌≡◌, ◌∙◌, ltb, leb, if◌then◌else◌,
  length, keep, All, Text, ◌==◌, ==_iff, Bool-cases, inl, inr, arith, not,
}

abbrev pub Entries : Type 0
Entries = List (Text × ℕ)

-- `entries.get(key)`
unfoldable pub find_entry : Entries → Text → Option ℕ
find_entry [] key = none
find_entry ((k, expiry) ∷ es) key =
    let rest = find_entry es key in if k == key then some expiry else rest

-- `entries.set(key, expiry)`: in its place, or at the end
unfoldable pub store_entry : Entries → Text → ℕ → Entries
store_entry [] key expiry = (key, expiry) ∷ []
store_entry ((k, old) ∷ es) key expiry =
    let rest = store_entry es key expiry in if k == key then (k, expiry) ∷ es else (k, old) ∷ rest

-- The expired entries are deleted once there are more than ten thousand.
unfoldable pub evict : ℕ → Entries → Entries
evict now es = if ltb 10000 (length es) then keep (λ e. not (leb e.1 now)) es else es

abbrev pub unexpired : Option ℕ → ℕ → Bool
unexpired none now = false
unexpired (some expiry) now = ltb now expiry

-- `checkAndStore`: the answer and the entries after it
unfoldable pub check_and_store : Entries → Text → ℕ → ℕ → Bool × Entries
unfolding find_entry store_entry evict
check_and_store es key expires now =
    if unexpired (find_entry es key) now
    then (false, es)
    else (true, evict now (store_entry es key expires))

pub record Call : Type 0 where
  pub key : Text
  pub expires : ℕ
  pub now : ℕ

-- The entries after a sequence of calls.
unfoldable pub after_calls : Entries → List Call → Entries
unfolding check_and_store
after_calls es [] = es
after_calls es (c ∷ cs) = after_calls (check_and_store es c.key c.expires c.now).1 cs

find_entry-store_entry :
    (es : Entries) (key : Text) (expiry : ℕ)
    → find_entry (store_entry es key expiry) key ≡ some expiry
unfolding find_entry store_entry
find_entry-store_entry [] key expiry = ground (arith, ==_iff key key)
find_entry-store_entry ((k, old) ∷ es) key expiry =
    ground (arith, find_entry-store_entry es key expiry)

find_other :
    (es : Entries) (key other : Text) (expiry : ℕ)
    → (other == key) ≡ false
    → find_entry (store_entry es other expiry) key ≡ find_entry es key
unfolding find_entry store_entry
find_other [] key other expiry h = ground arith
find_other ((k, old) ∷ es) key other expiry h =
    ground (arith, find_other es key other expiry h, ==_iff k other, ==_iff k key, ==_iff other key)

find_kept :
    (es : Entries) (key : Text) (expiry now : ℕ)
    → find_entry es key ≡ some expiry
    → now < expiry
    → find_entry (keep (λ e. not (leb e.1 now)) es) key ≡ some expiry
unfolding find_entry
find_kept [] key expiry now h k = h
find_kept ((j, old) ∷ es) key expiry now h k = ground (arith, find_kept es key expiry now)

find_evicted :
    (es : Entries) (key : Text) (expiry now : ℕ)
    → find_entry es key ≡ some expiry
    → now < expiry
    → find_entry (evict now es) key ≡ some expiry
unfolding evict
find_evicted es key expiry now h k = ground (arith, find_kept es key expiry now h k)

-- A call keeps an entry of any key that is unexpired at its time.
kept_by_call :
    (es : Entries) (key : Text) (expiry : ℕ) (c : Call)
    → find_entry es key ≡ some expiry
    → c.now < expiry
    → find_entry (check_and_store es c.key c.expires c.now).1 key ≡ some expiry
unfolding check_and_store
kept_by_call es key expiry c h k = elim (Bool-cases (unexpired (find_entry es c.key) c.now)) [
  | inl refused ↦ rw refused h
  | inr stored ↦ rw stored (elim (Bool-cases (c.key == key)) [
    | inl same ↦
        let at : c.key ≡ key = (==_iff c.key key).0 same in
        let found : find_entry es c.key ≡ some expiry = rw at h in
        let expired : unexpired (some expiry) c.now ≡ false = rw found at stored in ground arith
    | inr differ ↦
        find_evicted (store_entry es c.key c.expires) key expiry c.now
          (find_other es key c.key c.expires differ ∙ h) k
  ])
]

kept_by_calls :
    (cs : List Call) (es : Entries) (key : Text) (expiry : ℕ)
    → find_entry es key ≡ some expiry
    → All (λ (c : Call). c.now < expiry) cs
    → find_entry (after_calls es cs) key ≡ some expiry
unfolding after_calls
kept_by_calls [] es key expiry h k = h
kept_by_calls (c ∷ cs) es key expiry h (before, later) =
    kept_by_calls cs _ key expiry (kept_by_call es key expiry c h before) later

stored_by_accept :
    (es : Entries) (key : Text) (expires now : ℕ)
    → (check_and_store es key expires now).0 ≡ true
    → now < expires
    → find_entry (check_and_store es key expires now).1 key ≡ some expires
unfolding check_and_store
stored_by_accept es key expires now h k = elim (Bool-cases (unexpired (find_entry es key) now)) [
  | inl refused ↦ cc
  | inr stored ↦ rw stored (
      find_evicted (store_entry es key expires) key expires now
        (find_entry-store_entry es key expires) k)
]

refused_while_live :
    (es : Entries) (key : Text) (expiry expires now : ℕ)
    → find_entry es key ≡ some expiry
    → now < expiry
    → check_and_store es key expires now ≡ (false, es)
unfolding check_and_store
refused_while_live es key expiry expires now h k = ground arith

-- Once a key has been accepted with an expiry that is after the time of the call, then whatever calls
-- follow, for this or other keys, all at times before that expiry, with evictions among them, a
-- further call for the key at a time before the expiry is refused and changes nothing.
pub check_and_store-no_replay :
    (es : Entries) (key : Text) (expires now : ℕ)
    → (check_and_store es key expires now).0 ≡ true
    → now < expires
    → (cs : List Call) → All (λ (c : Call). c.now < expires) cs
    → (expires' later : ℕ) → later < expires
    → check_and_store (after_calls (check_and_store es key expires now).1 cs) key expires' later
      ≡ (false, after_calls (check_and_store es key expires now).1 cs)
check_and_store-no_replay es key expires now h k cs before expires' later l =
    refused_while_live _ key expires expires' later
      (kept_by_calls cs _ key expires (stored_by_accept es key expires now h k) before) l
