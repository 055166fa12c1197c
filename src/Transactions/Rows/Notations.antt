-- ===== src/Transactions/Rows/Notations.antt =====
-- The notations of dates, as the days of the rows and the comparison with a range read them.
use Prim.Native.String
use cogni_cash.Base.{
  String, ◌<◌, ◌≤◌, ◌≡◌, refl, ◌≢◌, ap, inl, inr, Bool, true, false, ◌||◌, List, [], ◌∷◌, length,
  has_shape, is_shape, split_char, truthy, arith, Bool-cases,
}
use cogni_cash.Base.Shapes.{
  occurrences, occurrences-append, occurrences-has_shape, length-split_char, has_shape-count-le,
  is_nonempty, take_text-nonempty, ltb_of_lt,
}
use cogni_cash.Transactions.Rows.{to_day, booking_day, joined_ymd}

-- A booking date in one of the two notations that the comparison reads as it stands.
abbrev pub is_iso : String → Bool
is_iso date = has_shape "dddd-dd-ddT" date || is_shape "dddd-dd-dd" date

-- Such a date is read in the same way by both.
pub booking_day-iso :
    (date : String)
    → is_iso date ≡ true
    → (to_day date ≡ booking_day date) × (truthy (to_day date) ≡ true)
unfolding to_day booking_day is_shape
booking_day-iso date h = elim (Bool-cases (has_shape "dddd-dd-ddT" date)) [
  | inl e ↦
      let long : 10 < String.count date = omega (arith, has_shape-count-le "dddd-dd-ddT" date e) in
      let full = is_nonempty date (omega (arith, long)) in
      rw (full, e, ltb_of_lt 10 (String.count date) long) (refl, take_text-nonempty 9 date full)
  | inr e ↦
      let shape : has_shape "dddd-dd-dd" date ≡ true = ground arith in
      let count : String.count date ≡ 10 = ground arith in
      let full = is_nonempty date (omega (arith, count)) in rw (full, e, shape, count) (refl, full)
]

-- The notation of a day with dots.
abbrev pub is_german : String → Bool
is_german = is_shape "dd.dd.dddd"

joined_ymd-dashed :
    (parts : List String) → length parts ≡ 3 → 1 ≤ occurrences b'-' (joined_ymd parts)
unfolding occurrences
joined_ymd-dashed [] h = absurd (omega (arith, h))
joined_ymd-dashed (d ∷ []) h = absurd (omega (arith, h))
joined_ymd-dashed (d ∷ m ∷ []) h = absurd (omega (arith, h))
joined_ymd-dashed (d ∷ m ∷ y ∷ rest) h =
    rw
      (
        occurrences-append b'-' y (String.◌++◌ "-" (String.◌++◌ m (String.◌++◌ "-" d))),
        occurrences-append b'-' "-" (String.◌++◌ m (String.◌++◌ "-" d)),
      )
      (omega arith)

module _ (date : String) (h : is_german date ≡ true) where
  german_parts : (has_shape "dd.dd.dddd" date ≡ true) × (String.count date ≡ 10)
  unfolding is_shape
  german_parts = ground arith

  no_dash : occurrences b'-' date ≡ 0
  unfolding occurrences
  no_dash = occurrences-has_shape b'-' "dd.dd.dddd" date refl german_parts.0 german_parts.1

  two_dots : occurrences b'.' date ≡ 2
  unfolding occurrences
  two_dots = occurrences-has_shape b'.' "dd.dd.dddd" date refl german_parts.0 german_parts.1

  -- It is compared as it stands.
  pub booking_day-german : booking_day date ≡ date
  unfolding booking_day
  booking_day-german = rw german_parts.1 refl

  not_timed : has_shape "dddd-dd-ddT" date ≡ false
  not_timed = elim (Bool-cases (has_shape "dddd-dd-ddT" date)) [
    | inl e ↦ absurd (omega (arith, has_shape-count-le "dddd-dd-ddT" date e, german_parts.1))
    | inr e ↦ e
  ]

  not_dashed : has_shape "dddd-dd-dd" date ≡ false
  unfolding occurrences
  not_dashed = elim (Bool-cases (has_shape "dddd-dd-dd" date)) [
    | inl e ↦
        let dashes = occurrences-has_shape b'-' "dddd-dd-dd" date refl e german_parts.1 in
        absurd (omega (arith, dashes, no_dash))
    | inr e ↦ e
  ]

  to_day-german : to_day date ≡ joined_ymd (split_char b'.' "" date)
  unfolding to_day is_shape
  to_day-german =
      let full = is_nonempty date (omega (arith, german_parts.1)) in
      rw (full, not_timed, not_dashed, german_parts.0, german_parts.1) refl

  -- Its day is written with dashes, and so is another text.
  pub to_day-german-dashed : 1 ≤ occurrences b'-' (to_day date)
  to_day-german-dashed = rw to_day-german (
      joined_ymd-dashed (split_char b'.' "" date)
        (rw (length-split_char b'.' "" date, two_dots) refl))

  pub to_day_differs : to_day date ≢ date
  to_day_differs e = omega (arith, to_day-german-dashed, no_dash, ap (occurrences b'-') e)

  pub to_day_known : to_day date ≢ ""
  unfolding occurrences
  to_day_known e = omega (arith, to_day-german-dashed, ap (occurrences b'-') e)
