-- ===== src/Xd/Flags/Names.antt =====
-- Every name in the table of status bits finds its own bit.
use Prim.Native.String.{String}
use text.Mathlib.Text.{◌==◌ as str_eq}
use text.Mathlib.TextPositions.{eq_refl}
use moon_flare.Xd.Flags.{Flag, flags, test_flag, flag_in, flag_set}
use moon_flare.Prelude.{
  ℕ, zero, suc, ◌<◌, ◌≡◌, refl, subst, List, [], ◌∷◌, Bool, true, false, not, ◌&&◌, some, get_elem?,
  Bytes, arith, ltb,
}

-- A name that no entry has.
abbrev absent : String → List Flag → Bool
absent name [] = true
absent name (f ∷ fs) = not (str_eq name f.name) && absent name fs

-- No name stands twice, and every bit is in one of the twelve status bytes.
abbrev in_order : List Flag → Bool
in_order [] = true
in_order (f ∷ fs) = absent f.name fs && ltb f.byte_idx 12 && in_order fs

-- A name that is not among others is not the name of one.
absent_lem :
    (name : String) (fs : List Flag) (i : ℕ) (f : Flag)
    → absent name fs ≡ true
    → get_elem? fs i ≡ some f
    → str_eq name f.name ≡ false
absent_lem name [] i f h e = absurd cc
absent_lem name (g ∷ fs) zero f h e =
    let q : g ≡ f = ground arith in subst (λ x. str_eq name x.name ≡ false) q (ground arith)
absent_lem name (g ∷ fs) (suc i) f h e = absent_lem name fs i f (ground arith) e

flag_in_lem :
    (raw_status : Bytes) (fs : List Flag) (i : ℕ) (f : Flag)
    → in_order fs ≡ true
    → get_elem? fs i ≡ some f
    → (flag_in raw_status f.name fs ≡ test_flag raw_status f) × (f.byte_idx < 12)
unfolding flag_in
flag_in_lem raw_status [] i f h e = absurd cc
flag_in_lem raw_status (g ∷ fs) zero f h e =
    let q : g ≡ f = ground arith in
    subst (λ x. (flag_in raw_status x.name (g ∷ fs) ≡ test_flag raw_status x) × (x.byte_idx < 12)) q
      (rw (eq_refl g.name) refl, ground arith)
flag_in_lem raw_status (g ∷ fs) (suc i) f h e =
    let n : str_eq g.name f.name ≡ false = absent_lem g.name fs i f (ground arith) e in
    let (r, b) = flag_in_lem raw_status fs i f (ground arith) e in (rw n r, b)

flags-in_order : in_order flags ≡ true
flags-in_order = refl

-- For every entry of the table, `bms_flag_set` with its name is the test of its own bit, which is in
-- one of the twelve status bytes: no name is found at another entry.
pub flag_set_lem :
    (raw_status : Bytes) (i : ℕ) (f : Flag)
    → get_elem? flags i ≡ some f
    → (flag_set raw_status f.name ≡ test_flag raw_status f) × (f.byte_idx < 12)
unfolding flag_set
flag_set_lem raw_status i f e = flag_in_lem raw_status flags i f flags-in_order e
