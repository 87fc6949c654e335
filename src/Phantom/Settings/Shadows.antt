-- ===== src/Phantom/Settings/Shadows.antt =====
-- The list of modules that `parse_shadows` of src/phantom/phantom.c makes.
use moon_flare.Prelude.{
  ◌≤◌, ◌≡◌, refl, List, [], ◌∷◌, ◌++◌, true, false, ◌||◌, not, Option, none, some, length,
  length-append, Bytes, All, leb, same_bytes, same_bytes_iff, if_elim, arith,
}
use moon_flare.Phantom.Settings.{
  Listing, listing_text, tokens, max_shadows, is_uuid, has, collect, parse_shadows,
}

abbrev pub AreUuids : List Bytes → Type 0
AreUuids = All (λ t. is_uuid t ≡ true)

-- No element stands in the list again.
abbrev pub NoRepeat : List Bytes → Type 0
NoRepeat [] = Unit
NoRepeat (x ∷ xs) = (has xs x ≡ false) × NoRepeat xs

-- At most eight different ids.
abbrev pub IsList : List Bytes → Type 0
IsList xs = (length xs ≤ 8) × (AreUuids xs × NoRepeat xs)

All-snoc :
    (xs : List Bytes) (t : Bytes) → AreUuids xs → is_uuid t ≡ true → AreUuids (xs ++ (t ∷ []))
All-snoc [] t u h = (h, tt)
All-snoc (x ∷ xs) t (u, us) h = (u, All-snoc xs t us h)

has-snoc : (xs : List Bytes) (t u : Bytes) → has (xs ++ (t ∷ [])) u ≡ (has xs u || same_bytes t u)
unfolding has
has-snoc [] t u = ground arith
has-snoc (x ∷ xs) t u = ground (arith, has-snoc xs t u)

different : (x t : Bytes) → same_bytes x t ≡ false → same_bytes t x ≡ false
different x t h = ground (arith, same_bytes_iff x t, same_bytes_iff t x)

NoRepeat-snoc :
    (xs : List Bytes) (t : Bytes) → NoRepeat xs → has xs t ≡ false → NoRepeat (xs ++ (t ∷ []))
unfolding has
NoRepeat-snoc [] t u h = (refl, tt)
NoRepeat-snoc (x ∷ xs) t (u, us) h = (
  ground (arith, has-snoc xs t x, different x t (ground arith)),
  NoRepeat-snoc xs t us (ground arith),
)

-- What holds of a list, if there is one.
abbrev pub IfList : (List Bytes → Type 0) → Option (List Bytes) → Type 0
IfList P none = Unit
IfList P (some xs) = P xs

collect-IsList : (ts out : List Bytes) → IsList out → IfList IsList (collect out ts)
unfolding collect
collect-IsList [] out h = h
collect-IsList (t ∷ ts) out (l, (u, n)) =
    if_elim (IfList IsList) (not (is_uuid t)) _ _ (λ a. tt)
      (λ a.
        if_elim (IfList IsList) (has out t) _ _ (λ b. collect-IsList ts out (l, (u, n)))
          (λ b.
            if_elim (IfList IsList) (leb max_shadows (length out)) _ _ (λ c. tt)
              (λ c. collect-IsList ts (out ++ (t ∷ [])) (
                ground (arith, length-append out (t ∷ [])),
                (All-snoc out t u (ground arith), NoRepeat-snoc out t n b),
              ))))

pub parse_shadows-IsList : (v : Listing) → IfList IsList (parse_shadows v)
unfolding parse_shadows
parse_shadows-IsList v = from_text (listing_text v)
  where
    from_text :
        (o : Option Bytes) → IfList IsList (elim o [ none ↦ none | some s ↦ collect [] (tokens s) ])
    from_text none = tt
    from_text (some s) = collect-IsList (tokens s) [] (omega arith, (tt, tt))
