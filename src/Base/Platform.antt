-- ===== src/Base/Platform.antt =====
-- What the pages take from the JavaScript engine and that no source file defines: Unicode case
-- mapping, the collation of the locale, and the reading of decimal numbers.
use Prim.Native.String.{String}
use mathlib.Core.Option.{Option, none}
use cogni_cash.Base.Int.{ℤ}
use cogni_cash.Base.Sort.{IsConsistent}
use cogni_cash.Base.Order.{text_compare, text_compare-IsConsistent}

pub record Platform : Type 0 where
  -- `s.toLowerCase()`
  pub to_lower : String → String
  -- `s.localeCompare(t)`
  pub locale_compare : String → String → ℤ
  -- `parseFloat(s)` in the unit of the amounts; `none` is NaN.
  pub parse_float : String → Option ℤ
  -- ECMA-402: `localeCompare` is a consistent comparator.
  pub collation : IsConsistent locale_compare

-- A platform that maps no case, collates by code points and reads nothing.
abbrev pub plain_platform : Platform
plain_platform = record {
  to_lower = λ s. s;
  locale_compare = text_compare;
  parse_float = λ s. none;
  collation = text_compare-IsConsistent;
}
