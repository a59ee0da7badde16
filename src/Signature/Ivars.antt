-- ===== src/Signature/Ivars.antt =====
-- `fold_ivar_writes` keeps a type exactly when every write has it.
use itaruby.Base.{
  List, [], ◌∷◌, none, some, Text, ◌≡◌, ◌≢◌, ◌↔◌, refl, sym, ◌∙◌, ap, Memᴰ, beq_refl, beq-cases,
  Every, every_nil, every_cons, inl, inr,
}
use mathlib.Core.Path.{subst}
use mathlib.Core.Option.{some-injective}
use itaruby.Types.{Ty, unknown}
use itaruby.Types.Equality.{ty_eq}
use itaruby.Signature.{fold_write, fold_values, type_or_unknown, fold_ivar_writes}

-- All writes have the type, and there is one.
abbrev pub OneType : Ty → List Ty → Type 0
OneType t values = (values ≢ []) × Every (λ v. v ≡ t) values

fold_write-same : (prev v : Ty) → prev ≡ v → fold_write (some prev) v ≡ some prev
fold_write-same prev v same = rw (same, beq_refl v) refl

fold_values-some :
    (prev : Ty) (values : List Ty) → (u : Ty) × (fold_values (some prev) values ≡ some u)
unfolding fold_values
fold_values-some prev [] = (prev, refl)
fold_values-some prev (v ∷ values) = elim (beq-cases prev v) [
  | inl same ↦
      let (u, e) = fold_values-some prev values in
      (u, subst (λ o. fold_values o values ≡ some u) (sym (fold_write-same prev v same)) e)
  | inr differ ↦ rw differ (fold_values-some unknown values)
]

fold_values-from :
    (prev t : Ty) (values : List Ty)
    → t ≢ unknown
    → fold_values (some prev) values ≡ some t
    → (prev ≡ t) × Every (λ v. v ≡ t) values
unfolding fold_values
fold_values-from prev t [] known e = (some-injective _ _ e, every_nil)
fold_values-from prev t (v ∷ values) known e = elim (beq-cases prev v) [
  | inl same ↦
      let (p, all) =
        fold_values-from prev t values known
          (subst (λ o. fold_values o values ≡ some t) (fold_write-same prev v same) e) in
      (p, every_cons (sym same ∙ p) all)
  | inr differ ↦
      let (p, all) = fold_values-from unknown t values known (rw differ at e) in
      absurd (known (sym p))
]

fold_values-all :
    (t : Ty) (values : List Ty) → Every (λ v. v ≡ t) values → fold_values (some t) values ≡ some t
unfolding fold_values
fold_values-all t _ every_nil = refl
fold_values-all t _ (every_cons {a = v} {rest = values} e all) =
    rw (e, beq_refl t) (fold_values-all t values all)

folded_iff :
    (t : Ty) (values : List Ty)
    → t ≢ unknown
    → (type_or_unknown (fold_values none values) ≡ t) ↔ OneType t values
unfolding fold_values
folded_iff t [] known = ((λ e. absurd (known (sym e))), λ h. absurd (h.0 refl))
folded_iff t (v ∷ values) known = (
  (λ e.
      let (u, f) = fold_values-some v values in
      let (p, all) =
        fold_values-from v t values known (f ∙ ap some (sym (ap type_or_unknown f) ∙ e)) in
      ((λ n. cc n), every_cons p all)),
  (λ (ne, all). elim all [
    | every_cons e rest ↦
        ap type_or_unknown (
          subst (λ w. fold_values (some w) values ≡ some t) (sym e) (fold_values-all t values rest))
  ]),
)

-- fold_ivar_writes gives an instance variable a type other than unknown exactly if it has writes
-- and all of them have that type.
pub fold_ivar_writes_iff :
    (name : Text) (t : Ty) (collected : List (Text × List Ty))
    → t ≢ unknown
    → Memᴰ (name, t) (fold_ivar_writes collected)
      ↔ ((values : List Ty) × Memᴰ (name, values) collected × OneType t values)
unfolding fold_ivar_writes
fold_ivar_writes_iff name t [] known = ((λ m. elim m [ ]), λ (values, m, one). elim m [ ])
fold_ivar_writes_iff name t ((other, writes) ∷ collected) known = (
  (λ m. elim m [
    | Memᴰ.head e ↦
        (writes, Memᴰ.head (cc e), (folded_iff t writes known).0 (sym (ap (λ q. q.1) e)))
    | Memᴰ.tail r ↦
        let (values, k, one) = (fold_ivar_writes_iff name t collected known).0 r in
        (values, Memᴰ.tail k, one)
  ]),
  (λ (values, m, one). elim m [
    | Memᴰ.head e ↦
        let same : values ≡ writes = ap (λ q. q.1) e in
        Memᴰ.head (cc (e, (folded_iff t writes known).1 (subst (OneType t) same one)))
    | Memᴰ.tail r ↦ Memᴰ.tail ((fold_ivar_writes_iff name t collected known).1 (values, r, one))
  ]),
)
