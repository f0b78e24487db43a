-- ===== src/Cache/Expiry.antt =====
-- A store answers as the map does in which nothing is ever deleted on expiry.
use pyfly.Common.{
  ℕ, ◌+◌, ◌≤◌, ◌<◌, IsDict, String, Bool, true, false, Option, none, some, List, [], ◌∷◌, ◌≡◌, refl,
  sym, ap, ◌∙◌, str_eq-cases, Dict, lookup, delete, keys, count, lookup-insert, lookup-delete,
  str_eq, if◌then◌else◌, arith, inl, inr,
}
use pyfly.Cache.{
  get_entry, exists_entry, is_found, expiry, Entry, has_expired, is_active, get, put, evict, exists,
  get_keys, save, pop, Call, get_call, exists_call, evict_call, pop_call, put_call, save_call,
  clear_call, call, call_all,
}

expired_later :
    (e : Option ℕ) (now t : ℕ) → has_expired e now ≡ true → now ≤ t → has_expired e t ≡ true
expired_later none now t expired later = expired
expired_later (some e) now t expired later = ground arith

active-live : (now : ℕ) (e : Option ℕ) → is_active e now ≡ true → has_expired e now ≡ false
active-live now none h = refl
active-live now (some exp) h = ground arith

if_second {ℓ} :
    {A B : Type ℓ} (a a' : A) (x y : B) (b : Bool)
    → (if◌then◌else◌ {A = A × B} b (a, x) (a', y)).1 ≡ (if b then x else y)
if_second a a' x y true = refl
if_second a a' x y false = refl

module _ {V : Type 0} where
  -- The value of an entry as long as it has not expired.
  abbrev pub live : ℕ → Option (Entry V) → Option V
  live now none = none
  live now (some entry) = if has_expired entry.expires_at now then none else some entry.value

  abbrev pub write :
      String → Option (Entry V) → (String → Option (Entry V)) → String → Option (Entry V)
  write key entry m k = if str_eq key k then entry else m k

  -- What a call does to the map: looking up changes nothing.
  unfoldable pub meant : Call V → ℕ → (String → Option (Entry V)) → String → Option (Entry V)
  meant (get_call key) now m = m
  meant (exists_call key) now m = m
  meant (evict_call key) now m = write key none m
  meant (pop_call key) now m = write key none m
  meant (put_call key value ttl) now m =
      write key (some (record { value = value; expires_at = expiry ttl now })) m
  meant (save_call key value ttl) now m =
      write key (some (record { value = value; expires_at = some (now + ttl) })) m
  meant clear_call now m = λ k. none

  unfoldable pub all_meant :
      List (ℕ × Call V) → (String → Option (Entry V)) → String → Option (Entry V)
  unfolding meant
  all_meant [] m = m
  all_meant ((now, c) ∷ calls) m = all_meant calls (meant c now m)

  abbrev pub Monotonic : ℕ → List (ℕ × Call V) → ℕ → Type 0
  Monotonic now [] last = now ≤ last
  Monotonic now ((t, c) ∷ calls) last = (now ≤ t) × Monotonic t calls last

  abbrev Agrees : ℕ → Dict (Entry V) → (String → Option (Entry V)) → Type 0
  Agrees now store m = (t : ℕ) (k : String) → now ≤ t → live t (lookup k store) ≡ live t (m k)

  delete-live :
      (key : String) (entry : Entry V) (now t : ℕ) (k : String) (store : Dict (Entry V))
      → lookup key store ≡ some entry
      → has_expired entry.expires_at now ≡ true
      → now ≤ t
      → live t (lookup k (delete key store)) ≡ live t (lookup k store)
  delete-live key entry now t k store found expired later =
      let gone = expired_later entry.expires_at now t expired later in
      elim (str_eq-cases key k) [
        | inl (same, test) ↦
            let there : lookup k store ≡ some entry = ap (λ x. lookup x store) (sym same) ∙ found in
            let not_there : lookup k (delete key store) ≡ none =
              ground (arith, lookup-delete key k store, test) in
            ap (live t) not_there
            ∙ (sym (ap (λ b. if b then none else some entry.value) gone) ∙ ap (live t) (sym there))
        | inr (_, differ) ↦ ap (live t) (ground (arith, lookup-delete key k store, differ))
      ]

  written :
      (key k : String) (t : ℕ) (entry o o' : Option (Entry V))
      → live t o ≡ live t o'
      → live t (if str_eq key k then entry else o) ≡ live t (if str_eq key k then entry else o')
  written key k t entry o o' h =
      elim (str_eq key k)
        as (λ b. live t (if b then entry else o) ≡ live t (if b then entry else o')) [
          | true ↦ refl
          | false ↦ h
        ]

  -- Deleting an entry only if it has expired is not seen later.
  purged-live :
      (key : String) (entry : Entry V) (now t : ℕ) (k : String) (store : Dict (Entry V)) (b : Bool)
      → has_expired entry.expires_at now ≡ b
      → lookup key store ≡ some entry
      → now ≤ t
      → live t (lookup k (if b then delete key store else store)) ≡ live t (lookup k store)
  purged-live key entry now t k store true expired found later =
      delete-live key entry now t k store found expired later
  purged-live key entry now t k store false expired found later = refl

  get_entry-live :
      (key : String) (now t : ℕ) (k : String) (store : Dict (Entry V)) (o : Option (Entry V))
      → lookup key store ≡ o
      → now ≤ t
      → (live t (lookup k (get_entry key now store o).1) ≡ live t (lookup k store))
        × (live t (lookup k (exists_entry key now store o).1) ≡ live t (lookup k store))
  unfolding get_entry exists_entry
  get_entry-live key now t k store none found later = (refl, refl)
  get_entry-live key now t k store (some entry) found later =
      let kept =
        purged-live key entry now t k store (has_expired entry.expires_at now) refl found later in
      (
        ap (λ d. live t (lookup k d))
              (if_second none (some entry.value) (delete key store) store
                (has_expired entry.expires_at now))
            ∙ kept,
        ap (λ d. live t (lookup k d))
              (if_second false true (delete key store) store (has_expired entry.expires_at now))
            ∙ kept,
      )

  lookup-evict :
      (key k : String) (store : Dict (Entry V)) (o : Option (Entry V))
      → lookup key store ≡ o
      → lookup k
          (if◌then◌else◌ {A = Bool × Dict (Entry V)}
            (is_found o)
            (true, delete key store)
            (false, store)).1
        ≡ (if str_eq key k then none else lookup k store)
  lookup-evict key k store (some entry) found = lookup-delete key k store
  lookup-evict key k store none missing = elim (str_eq-cases key k) [
    | inl (same, test) ↦ ground (arith, ap (λ x. lookup x store) same)
    | inr (_, differ) ↦ ground arith
  ]

  call-Agrees :
      (c : Call V) (now : ℕ) (store : Dict (Entry V)) (m : String → Option (Entry V))
      → Agrees now store m
      → Agrees now (call c now store) (meant c now m)
  unfolding call meant get exists evict put save pop
  call-Agrees (get_call key) now store m h t k later =
      (get_entry-live key now t k store (lookup key store) refl later).0 ∙ h t k later
  call-Agrees (exists_call key) now store m h t k later =
      (get_entry-live key now t k store (lookup key store) refl later).1 ∙ h t k later
  call-Agrees (evict_call key) now store m h t k later =
      ap (live t) (lookup-evict key k store (lookup key store) refl)
      ∙ written key k t none (lookup k store) (m k) (h t k later)
  call-Agrees (pop_call key) now store m h t k later =
      ap (live t) (lookup-delete key k store)
      ∙ written key k t none (lookup k store) (m k) (h t k later)
  call-Agrees (put_call key value ttl) now store m h t k later =
      let entry : Entry V = record { value = value; expires_at = expiry ttl now } in
      ap (live t) (lookup-insert key k entry store)
      ∙ written key k t (some entry) (lookup k store) (m k) (h t k later)
  call-Agrees (save_call key value ttl) now store m h t k later =
      let entry : Entry V = record { value = value; expires_at = some (now + ttl) } in
      ap (live t) (lookup-insert key k entry store)
      ∙ written key k t (some entry) (lookup k store) (m k) (h t k later)
  call-Agrees clear_call now store m h t k later = refl

  get-live :
      (key : String) (now : ℕ) (store : Dict (Entry V)) (o : Option (Entry V))
      → (get_entry key now store o).0 ≡ live now o
  unfolding get_entry
  get-live key now store none = refl
  get-live key now store (some entry) =
      elim (has_expired entry.expires_at now)
        as (λ b.
          (if◌then◌else◌ {A = Option V × Dict (Entry V)} b (none, delete key store)
            (some entry.value, store)).0
          ≡ (if b then none else some entry.value)) [ true ↦ refl | false ↦ refl ]

  nothing : (t : ℕ) (k : String) → live t (lookup k []) ≡ none
  unfolding lookup
  nothing t k = refl

  call_all-Agrees :
      (calls : List (ℕ × Call V)) (start now : ℕ) (store : Dict (Entry V))
      (m : String → Option (Entry V))
      → Monotonic start calls now
      → Agrees start store m
      → Agrees now (call_all calls store) (all_meant calls m)
  unfolding call_all all_meant
  call_all-Agrees [] start now store m later h = λ t k after. h t k (omega arith)
  call_all-Agrees ((at, c) ∷ calls) start now store m (later, rest) h =
      call_all-Agrees calls at now (call c at store) (meant c at m) rest
        (call-Agrees c at store m (λ t k after. h t k (omega arith)))

  -- After calls at times that do not decrease, a look-up finds what the map holds under the key that
  -- the calls write, unless it has expired: the deletions on expiry are never seen.
  pub call_all-live :
      (calls : List (ℕ × Call V)) (start now : ℕ) (key : String)
      → Monotonic start calls now
      → (get key now (call_all calls [])).0 ≡ live now (all_meant calls (λ k. none) key)
  unfolding get
  call_all-live calls start now key m =
      let store = call_all calls [] in
      get-live key now store (lookup key store)
      ∙ call_all-Agrees calls start now [] (λ k. none) m (λ t k after. nothing t k) now key
          (omega arith)

  get_keys-within :
      (now : ℕ) (k : String) (store : Dict (Entry V))
      → count k (get_keys now store) ≤ count k (keys store)
  unfolding get_keys keys count
  get_keys-within now k [] = omega arith
  get_keys-within now k ((j, entry) ∷ store) = ground (arith, get_keys-within now k store)

  listed-live :
      (now : ℕ) (k : String) (store : Dict (Entry V))
      → IsDict store
      → 0 < count k (get_keys now store)
      → (v : V) × (live now (lookup k store) ≡ some v)
  unfolding get_keys lookup keys count
  listed-live now k [] once listed = ground arith
  listed-live now k ((j, entry) ∷ store) once listed = elim (str_eq-cases j k) [
    | inl (same, test) ↦ (
      entry.value,
      ground (arith, once k, get_keys-within now k store, active-live now entry.expires_at, test),
    )
    | inr (_, differ) ↦
        let (v, found) =
          listed-live now k store (λ i. ground (arith, once i)) (ground (arith, differ)) in
        (v, ground (arith, differ, found))
  ]

  -- A key that is listed at a time is found by a look-up at that time.
  pub get_keys-get :
      (now : ℕ) (k : String) (store : Dict (Entry V))
      → IsDict store
      → 0 < count k (get_keys now store)
      → (v : V) × ((get k now store).0 ≡ some v)
  unfolding get
  get_keys-get now k store once listed =
      let (v, found) = listed-live now k store once listed in
      (v, get-live k now store (lookup k store) ∙ found)
