-- ===== src/Device/Distinct/Wants.antt =====
-- The entries that `validate_apply` of src/device/device.c lets through: what the one for a slot says
-- of its name.
use moon_flare.Prelude.{
  true, false, ◌≡◌, ◌≢◌, refl, sym, ◌∙◌, subst, Option, some, Bytes, List, [], ◌∷◌, length, leb,
  same_bytes, same_bytes_iff, arith, Bool-cases, inl, inr, ap,
}
use moon_flare.Device.Spec.{DeviceConfig, is_empty}
use moon_flare.Device.Plugin.{Plugin}
use moon_flare.Device.Table.{name_size}
use moon_flare.Device.Apply.{find_want, clashes, clashes_later, bad_entry, bad_entries}

-- The first entry with a uuid, by cases on whether that is the first of all.
find_want_head :
    (d : DeviceConfig) (ds : List DeviceConfig) (uuid : Bytes)
    → same_bytes d.uuid uuid ≡ true
    → find_want (d ∷ ds) uuid ≡ some d
unfolding find_want
find_want_head d ds uuid h = rw h refl

find_want_tail :
    (d : DeviceConfig) (ds : List DeviceConfig) (uuid : Bytes)
    → same_bytes d.uuid uuid ≡ false
    → find_want (d ∷ ds) uuid ≡ find_want ds uuid
unfolding find_want
find_want_tail d ds uuid h = rw h refl

pub some-inj : (a b : DeviceConfig) → ◌≡◌ {A = Option DeviceConfig} (some a) (some b) → a ≡ b
some-inj a b e = cc

-- What holds of every entry that is passed over, and of the one that is found.
pub want_ind {κ} :
    (P : DeviceConfig → Type κ) (Q : DeviceConfig → List DeviceConfig → Type κ) (uuid : Bytes)
    (w : DeviceConfig)
    → ((d : DeviceConfig) (ds : List DeviceConfig) → Q d ds → d.uuid ≡ uuid → P d)
    → (R : List DeviceConfig → Type κ)
    → ((d : DeviceConfig) (ds : List DeviceConfig) → R (d ∷ ds) → Q d ds × R ds)
    → (ds : List DeviceConfig) → R ds
    → find_want ds uuid ≡ some w
    → P w
unfolding find_want
want_ind P Q uuid w found R split [] r e = ground arith
want_ind P Q uuid w found R split (d ∷ ds) r e =
    let (q, s) = split d ds r in
    elim (Bool-cases (same_bytes d.uuid uuid)) [
      | inl h ↦
          subst P (some-inj d w (sym (find_want_head d ds uuid h) ∙ e))
            (found d ds q ((same_bytes_iff d.uuid uuid).0 h))
      | inr h ↦ want_ind P Q uuid w found R split ds s (sym (find_want_tail d ds uuid h) ∙ e)
    ]

pub want_uuid :
    (ds : List DeviceConfig) (uuid : Bytes) (w : DeviceConfig)
    → find_want ds uuid ≡ some w
    → w.uuid ≡ uuid
want_uuid ds uuid w e =
    want_ind (λ d. d.uuid ≡ uuid) (λ d ds. Unit) uuid w (λ d ds q h. h) (λ ds. Unit)
      (λ d ds r. (tt, tt)) ds tt e

-- What is known of an entry by itself.
pub record GoodEntry (w : DeviceConfig) : Type 0 where
  pub name_given : w.enabled ≡ true → is_empty w.name ≡ false
  pub name_fits : is_empty w.name ≡ false → leb name_size (length w.name) ≡ false

bad_entry-false :
    (plugins : List Plugin) (d : DeviceConfig) (ds : List DeviceConfig)
    → bad_entry plugins d ds ≡ false
    → GoodEntry d
unfolding bad_entry
bad_entry-false plugins d ds h = record {
  name_given = λ e. ground arith;
  name_fits = λ e. ground arith;
}

no_clash :
    (plugins : List Plugin) (d : DeviceConfig) (ds : List DeviceConfig)
    → bad_entry plugins d ds ≡ false
    → clashes_later d ds ≡ false
unfolding bad_entry
no_clash plugins d ds h = ground arith

bad_entries-split :
    (plugins : List Plugin) (d : DeviceConfig) (ds : List DeviceConfig)
    → bad_entries plugins (d ∷ ds) ≡ false
    → (bad_entry plugins d ds ≡ false) × (bad_entries plugins ds ≡ false)
unfolding bad_entries
bad_entries-split plugins d ds h = ground arith

clashes_later-split :
    (d e : DeviceConfig) (es : List DeviceConfig)
    → clashes_later d (e ∷ es) ≡ false
    → (clashes d e ≡ false) × (clashes_later d es ≡ false)
unfolding clashes_later
clashes_later-split d e es h = ground arith

pub want-GoodEntry :
    (plugins : List Plugin) (ds : List DeviceConfig) (uuid : Bytes) (w : DeviceConfig)
    → bad_entries plugins ds ≡ false
    → find_want ds uuid ≡ some w
    → GoodEntry w
want-GoodEntry plugins ds uuid w b e =
    want_ind GoodEntry (λ d ds. bad_entry plugins d ds ≡ false) uuid w
      (λ d ds q h. bad_entry-false plugins d ds q) (λ ds. bad_entries plugins ds ≡ false)
      (bad_entries-split plugins) ds b e

want-clashes :
    (d : DeviceConfig) (ds : List DeviceConfig) (uuid : Bytes) (w : DeviceConfig)
    → clashes_later d ds ≡ false
    → find_want ds uuid ≡ some w
    → clashes d w ≡ false
want-clashes d ds uuid w c e =
    want_ind (λ x. clashes d x ≡ false) (λ x ds. clashes d x ≡ false) uuid w (λ x ds q h. q)
      (λ ds. clashes_later d ds ≡ false) (clashes_later-split d) ds c e

names_differ :
    (d w : DeviceConfig) → clashes d w ≡ false → is_empty d.name ≡ false → d.name ≢ w.name
unfolding clashes
names_differ d w c e h = ground (arith, same_bytes_iff d.name w.name)

-- The entries of two slots have different names.
pub wants_differ :
    (plugins : List Plugin) (ds : List DeviceConfig) (u v : Bytes) (w x : DeviceConfig)
    → bad_entries plugins ds ≡ false
    → find_want ds u ≡ some w
    → find_want ds v ≡ some x
    → u ≢ v
    → is_empty w.name ≡ false
    → w.name ≢ x.name
unfolding find_want
wants_differ plugins [] u v w x b e f ne n h = ground arith
wants_differ plugins (d ∷ ds) u v w x b e f ne n h =
    let (bad, rest) = bad_entries-split plugins d ds b in
    let none_later = no_clash plugins d ds bad in
    elim (Bool-cases (same_bytes d.uuid u)) [
      | inl p ↦
          let a = some-inj d w (sym (find_want_head d ds u p) ∙ e) in
          elim (Bool-cases (same_bytes d.uuid v)) [
            | inl q ↦ ne (sym ((same_bytes_iff d.uuid u).0 p) ∙ (same_bytes_iff d.uuid v).0 q)
            | inr q ↦
                names_differ d x
                  (want-clashes d ds v x none_later (sym (find_want_tail d ds v q) ∙ f))
                  (subst (λ y. is_empty y.name ≡ false) (sym a) n) (ap (λ y. y.name) a ∙ h)
          ]
      | inr p ↦
          let e' = sym (find_want_tail d ds u p) ∙ e in
          elim (Bool-cases (same_bytes d.uuid v)) [
            | inl q ↦
                let a = some-inj d x (sym (find_want_head d ds v q) ∙ f) in
                names_differ d w (want-clashes d ds u w none_later e')
                  (subst (λ y. is_empty y ≡ false) (h ∙ sym (ap (λ y. y.name) a)) n)
                  (ap (λ y. y.name) a ∙ sym h)
            | inr q ↦
                wants_differ plugins ds u v w x rest e' (sym (find_want_tail d ds v q) ∙ f) ne n h
          ]
    ]
