-- ===== src/Api/Settings/Merging.antt =====
-- What a page reads from the merged settings.
use Prim.Native.String
use text.Mathlib.Text.{starts_with}
use text.Mathlib.TextEquality.{starts_with_iff}
use text.Mathlib.TextLemmas.{append_cancel_left}
use text.Mathlib.TextPositions.{slice-append_right, len-append, starts_with-append}
use mathlib.Core.Bool.{false≢true}
use cogni_cash.Base.{
  String, ◌==◌, eq_iff, eq_refl, ◌≡◌, refl, sym, ap, ◌∙◌, Bool, true, false, Option, none, some,
  List, [], ◌∷◌, if◌then◌else◌, arith, Bool-cases, inl, inr, ◌≢◌, subst,
}
use cogni_cash.Base.Collections.{has, get, put, get-put}
use cogni_cash.Api.Settings.{
  Settings, strip, value_or, merge_from, keys, merge_effective_settings, client_prefix,
  get_namespaced_key, get_client_id,
}

strip-append : (prefix t : String) → strip prefix (String.◌++◌ prefix t) ≡ t
strip-append prefix t = rw (len-append prefix t) (slice-append_right prefix t)

module _ (prefix : String) (raw : Settings) (j : String) where
  abbrev device_key : String
  device_key = String.◌++◌ prefix j

  -- A key without the prefix is not the device's key.
  other_key : (key : String) → starts_with key prefix ≡ false → key == device_key ≡ false
  other_key key e = elim (Bool-cases (key == device_key)) [
    | inl same ↦ absurd (
        false≢true (
          sym e
          ∙ ap (λ k. starts_with k prefix) ((eq_iff key device_key).0 same)
          ∙ starts_with-append prefix j))
    | inr other ↦ other
  ]

  -- A key with the prefix is the device's key exactly if the rest of it is the key.
  same_key : (t : String) → String.◌++◌ prefix t == device_key ≡ (t == j)
  same_key t = elim (Bool-cases (t == j)) [
    | inl e ↦ rw ((eq_iff t j).0 e, eq_refl (String.◌++◌ prefix j), eq_refl j) refl
    | inr e ↦ elim (Bool-cases (String.◌++◌ prefix t == device_key)) [
      | inl same ↦ absurd (
          false≢true (sym e ∙ (eq_iff t j).1 (append_cancel_left prefix t j ((eq_iff _ _).0 same))))
      | inr other ↦ other ∙ sym e
    ]
  ]

  abbrev written_value : Option String
  written_value = some (value_or (get raw device_key))

  settled : (b : Bool) → (if b then written_value else written_value) ≡ written_value
  settled true = refl
  settled false = refl

  step :
      (t : String) (ks : List String) (merged : Settings)
      → (if has ks device_key
          then written_value
          else get (put t (value_or (get raw (String.◌++◌ prefix t))) merged) j)
        ≡ (if (if t == j then true else has ks device_key) then written_value else get merged j)
  step t ks merged = elim (Bool-cases (t == j)) [
    | inl e ↦
        rw ((eq_iff t j).0 e, get-put j (value_or (get raw device_key)) merged j, eq_refl j)
          (settled (has ks device_key))
    | inr e ↦ rw (get-put t (value_or (get raw (String.◌++◌ prefix t))) merged j, e) refl
  ]

  abbrev Goal : List String → Settings → String → Type 0
  Goal ks merged key =
      get (merge_from prefix raw (key ∷ ks) merged) j
      ≡ (if has (key ∷ ks) device_key then written_value else get merged j)

  prefixed :
      (ks : List String) (merged : Settings) (t : String)
      → get (merge_from prefix raw ks (put t (value_or (get raw (String.◌++◌ prefix t))) merged)) j
        ≡ (if has ks device_key
            then written_value
            else get (put t (value_or (get raw (String.◌++◌ prefix t))) merged) j)
      → Goal ks merged (String.◌++◌ prefix t)
  unfolding merge_from has
  prefixed ks merged t h =
      rw (starts_with-append prefix t, strip-append prefix t, h, same_key t) (step t ks merged)

  get-merge_from :
      (ks : List String) (merged : Settings)
      → get (merge_from prefix raw ks merged) j
        ≡ (if has ks device_key then written_value else get merged j)
  unfolding merge_from has
  get-merge_from [] merged = refl
  get-merge_from (key ∷ ks) merged = elim (Bool-cases (starts_with key prefix)) [
    | inl e ↦
        let (t, path) = (starts_with_iff key prefix).0 e in
        subst (Goal ks merged) path (
          prefixed ks merged t
            (get-merge_from ks (put t (value_or (get raw (String.◌++◌ prefix t))) merged)))
    | inr e ↦ rw (e, other_key key e) (get-merge_from ks merged)
  ]

-- The keys of a dictionary are those with an entry.
keys-get :
    (raw : Settings) (x : String)
    → (if has (keys raw) x then some (value_or (get raw x)) else none) ≡ get raw x
unfolding has get
keys-get [] x = refl
keys-get ((k, v) ∷ raw) x = elim (Bool-cases (k == x)) [
  | inl e ↦ rw e refl
  | inr e ↦ rw e (keys-get raw x)
]

-- The first of two values that is there.
abbrev pub first_of : Option String → Option String → Option String
first_of none d = d
first_of (some v) d = some v

first_of-if :
    (b : Bool) (v : String) (o : Option String) (d : Option String)
    → (if b then some v else none) ≡ o
    → (if b then some v else d) ≡ first_of o d
first_of-if true v o d h = rw (sym h) refl
first_of-if false v o d h = rw (sym h) refl

-- A page reads the value stored for this device, if there is one, and else the common value; no
-- other entry matters.
pub get-merge_effective_settings :
    (client_id : String) (raw : Settings) (key : String)
    → get (merge_effective_settings client_id raw) key
      ≡ first_of (get raw (get_namespaced_key client_id key true)) (get raw key)
unfolding merge_effective_settings get_namespaced_key
get-merge_effective_settings client_id raw key =
    let device = String.◌++◌ (client_prefix client_id) key in
    get-merge_from (client_prefix client_id) raw key (keys raw) raw
    ∙ first_of-if (has (keys raw) device) (value_or (get raw device)) (get raw device) (get raw key)
        (keys-get raw device)

-- A value that is saved for this device is the value that its pages read.
pub merge_effective_settings-put :
    (client_id : String) (raw : Settings) (key value : String)
    → get
        (merge_effective_settings client_id (put (get_namespaced_key client_id key true) value raw))
        key
      ≡ some value
merge_effective_settings-put client_id raw key value =
    rw
      (
        get-merge_effective_settings client_id
            (put (get_namespaced_key client_id key true) value raw) key,
        get-put (get_namespaced_key client_id key true) value raw
            (get_namespaced_key client_id key true),
        eq_refl (get_namespaced_key client_id key true),
      )
      refl

-- With a fresh identifier that is not empty, a second call gives the same identifier and stores
-- the same.
pub get_client_id_twice :
    (fresh later : String) (stored : Option String)
    → fresh ≢ ""
    → get_client_id later (get_client_id fresh stored).1 ≡ get_client_id fresh stored
unfolding get_client_id
get_client_id_twice fresh later none h = ground (arith, eq_iff fresh "")
get_client_id_twice fresh later (some id) h = ground (arith, eq_iff fresh "", eq_iff id "")
