-- ===== src/Rbs/Parser/Ends.antt =====
-- The recursive part of the parser comes to an end: eight units of fuel for each byte of the input,
-- and a few more for the calls that read nothing, are enough.
use itaruby.Base.{
  ℕ, zero, suc, ◌+◌, ◌*◌, ◌<◌, ◌≤◌, ◌&&◌, Text, codes, ◌==◌, nat_eq, text_eq, length, arith,
}
use itaruby.Rbs.{RbsTy, simple, generic, union, end, arg}
use itaruby.Rbs.Outcome.{
  Outcome, ok, err, too_many_type_args, Parser, pure, ◌>>=◌, ◌>>◌, Leaves, left, failed,
  Leaves-chain, Leaves-if,
}
use itaruby.Rbs.Scan.{
  peeks, peeks_second, advance, ident, expect_arrow, step-Leaves, length-advance_le, eat-Leaves,
  spaces-Leaves, expect-Leaves, expect_arrow-Leaves, ident-Leaves, skip_param_name-Leaves,
}
use itaruby.Rbs.Parser.{
  postfix_nilable, more_than_two, untyped, keyword_name, names_keyword, lower_name, ty, union_parts,
  intersection_ty, intersection_parts, primary, group, named, proc_type, singleton_type, shape_type,
  shape_fields, bracketed_types, more_types, param_list, param_loop, param, rest_param,
  optional_param, required_or_keyword_param,
}

pub Leaves-weaken {ℓ} :
    {A : Type ℓ} {n : ℕ} (k : ℕ) {o : Outcome A} → Leaves n o → n ≤ k → Leaves k o
Leaves-weaken k (left h) le = left (omega (arith, h, le))
Leaves-weaken k failed le = failed

postfix_nilable-Leaves :
    {n : ℕ} (t : RbsTy) (s : Text) → length s < n → Leaves n (postfix_nilable t s)
unfolding postfix_nilable
postfix_nilable-Leaves t s h = eat-Leaves b'?' s _ (λ q l. left (omega (arith, h, l))) (λ q. left h)

keyword_name-Leaves : (s : Text) → Leaves (length s) (keyword_name s)
unfolding keyword_name
keyword_name-Leaves s =
    Leaves-chain (ident-Leaves s)
      λ name r h. Leaves-chain {f = λ _. pure name} (step-Leaves r h) λ _ q k. left k

-- With this much fuel the call ends, and leaves less than it was given.
abbrev pub Reads {ℓ} : {A : Type ℓ} → ℕ → (ℕ → Parser A) → Type ℓ
Reads rank p = (f : ℕ) (s : Text) → 8 * length s + rank < f → Leaves (length s) (p f s)

-- The same for a loop, which may read nothing.
abbrev pub Loops {ℓ} : {A : Type ℓ} → ℕ → (ℕ → Parser A) → Type ℓ
Loops rank p = (f : ℕ) (s : Text) → 8 * length s + rank < f → Leaves (suc (length s)) (p f s)

mutual
  unfolding ty

  pub ty-Reads : Reads 3 ty
  ty-Reads zero s h = absurd (omega arith)
  ty-Reads (suc f) s h = Leaves-chain (intersection_ty-Reads f s (omega arith)) λ first r l.
      Leaves-chain (spaces-Leaves r l) λ _ q k.
        Leaves-if (peeks b'|' q) (union_parts f >>= λ parts. ok (union (arg first parts)))
          (ok first) q
          (λ e.
            Leaves-chain
              (Leaves-weaken (length s) (union_parts-Loops f q (omega arith)) (omega arith))
              λ parts w m. left m)
          (λ e. left k)

  union_parts-Loops : Loops 1 union_parts
  union_parts-Loops zero s h = absurd (omega arith)
  union_parts-Loops (suc f) s h =
      eat-Leaves b'|' s _
        (λ e l. Leaves-chain (spaces-Leaves (advance s) l) λ _ q k.
          Leaves-chain (intersection_ty-Reads f q (omega arith)) λ part r m.
            Leaves-chain (spaces-Leaves r m) λ _ w n.
              Leaves-chain
                (Leaves-weaken (suc (length s)) (union_parts-Loops f w (omega arith)) (omega arith))
                λ parts v o. left o)
        (λ e. left (omega arith))

  intersection_ty-Reads : Reads 2 intersection_ty
  intersection_ty-Reads zero s h = absurd (omega arith)
  intersection_ty-Reads (suc f) s h = Leaves-chain (primary-Reads f s (omega arith)) λ first r l.
      Leaves-chain (spaces-Leaves r l) λ _ q k.
        Leaves-if (peeks b'&' q) (intersection_parts f >> ok untyped) (ok first) q
          (λ e.
            Leaves-chain
              (Leaves-weaken (length s) (intersection_parts-Loops f q (omega arith)) (omega arith))
              λ _ w m. left m)
          (λ e. left k)

  intersection_parts-Loops : Loops 1 intersection_parts
  intersection_parts-Loops zero s h = absurd (omega arith)
  intersection_parts-Loops (suc f) s h =
      eat-Leaves b'&' s _
        (λ e l. Leaves-chain (spaces-Leaves (advance s) l) λ _ q k.
          Leaves-chain (primary-Reads f q (omega arith)) λ _ r m.
            Leaves-chain (spaces-Leaves r m) λ _ w n.
              Leaves-weaken (suc (length s)) (intersection_parts-Loops f w (omega arith))
                (omega arith))
        (λ e. left (omega arith))

  primary-Reads : Reads 1 primary
  primary-Reads zero s h = absurd (omega arith)
  primary-Reads (suc f) s h =
      Leaves-chain (spaces-Leaves {n = suc (length s)} s (omega arith)) λ _ s₁ k.
        Leaves-weaken (length s)
          (eat-Leaves b'?' s₁ _
            (λ e l.
              Leaves-chain
                (Leaves-weaken (length s₁) (primary-Reads f (advance s₁) (omega arith))
                  (omega arith))
                λ t r m. left m)
            (λ e₁.
              eat-Leaves b'^' s₁ _
                (λ e l.
                  Leaves-weaken (length s₁) (proc_type-Reads f (advance s₁) (omega arith))
                    (omega arith))
                (λ e₂.
                  eat-Leaves b'(' s₁ _
                    (λ e l.
                      Leaves-weaken (length s₁) (group-Reads f (advance s₁) (omega arith))
                        (omega arith))
                    (λ e₃.
                      eat-Leaves b'{' s₁ _
                        (λ e l.
                          Leaves-weaken (length s₁) (shape_type-Reads f (advance s₁) (omega arith))
                            (omega arith))
                        (λ e₄.
                          eat-Leaves b'[' s₁ _
                            (λ e l.
                              Leaves-chain
                                (Leaves-weaken (length s₁)
                                  (bracketed_types-Reads f (advance s₁) (omega arith))
                                  (omega arith))
                                λ args r m.
                                  postfix_nilable-Leaves (generic (codes "__tuple") args) r m)
                            (λ e₅. Leaves-chain (ident-Leaves s₁) λ name r m.
                              Leaves-weaken (length s₁) (named-Loops f name r (omega arith))
                                (omega arith)))))))
          (omega arith)

  group-Reads : Reads 4 group
  group-Reads zero s h = absurd (omega arith)
  group-Reads (suc f) s h = Leaves-chain (ty-Reads f s (omega arith)) λ inner r l.
      Leaves-chain (spaces-Leaves r l) λ _ q k.
        Leaves-chain (expect-Leaves b')' (codes ")") q)
          λ _ w m. postfix_nilable-Leaves inner w (omega arith)

  -- After the name of `primary`.
  named-Loops :
      (f : ℕ) (name s : Text) → 8 * length s + 5 < f → Leaves (suc (length s)) (named f name s)
  named-Loops zero name s h = absurd (omega arith)
  named-Loops (suc f) name s h =
      Leaves-if (name == codes "singleton" && peeks b'(' s) (λ r. singleton_type f (advance r)) _ s
        (λ e.
          Leaves-weaken (suc (length s))
            (singleton_type-Reads f (advance s) (omega (arith, length-advance_le s)))
            (omega (arith, length-advance_le s)))
        (λ e.
          eat-Leaves b'[' s _
            (λ e₁ l. Leaves-chain (bracketed_types-Reads f (advance s) (omega arith)) λ args r m.
              Leaves-if (more_than_two args) (λ w. err too_many_type_args)
                (postfix_nilable (generic name args)) r (λ q. failed)
                (λ q. postfix_nilable-Leaves (generic name args) r (omega arith)))
            (λ e₁. postfix_nilable-Leaves (simple name) s (omega arith)))

  proc_type-Reads : Reads 1 proc_type
  proc_type-Reads zero s h = absurd (omega arith)
  proc_type-Reads (suc f) s h =
      Leaves-chain (spaces-Leaves {n = suc (length s)} s (omega arith)) λ _ s₁ k.
        let result : (w : Text)
            → length w < suc (length s₁)
            → Leaves (length s)
                ((expect_arrow (codes "-> in proc type") >> (ty f >> postfix_nilable untyped)) w) =
          λ w n. Leaves-chain (expect_arrow-Leaves (codes "-> in proc type") w) λ _ v m.
            Leaves-chain (ty-Reads f v (omega arith))
              λ _ u o. postfix_nilable-Leaves untyped u (omega arith) in
        eat-Leaves b'(' s₁ _
          (λ e l.
            Leaves-chain
              (Leaves-chain (param_list-Reads f (advance s₁) (omega arith))
                λ _ r m. spaces-Leaves {n = suc (length s₁)} r (omega arith))
              λ _ w n. result w n)
          (λ e. result s₁ (omega arith))

  singleton_type-Reads : Reads 4 singleton_type
  singleton_type-Reads zero s h = absurd (omega arith)
  singleton_type-Reads (suc f) s h = Leaves-chain (ty-Reads f s (omega arith)) λ inner r l.
      Leaves-chain (spaces-Leaves r l) λ _ q k.
        Leaves-chain (expect-Leaves b')' (codes ")") q) λ _ w m.
          postfix_nilable-Leaves (generic (codes "singleton") (arg inner end)) w (omega arith)

  shape_type-Reads : Reads 5 shape_type
  shape_type-Reads zero s h = absurd (omega arith)
  shape_type-Reads (suc f) s h =
      Leaves-chain (spaces-Leaves {n = suc (length s)} s (omega arith)) λ _ s₁ k.
        Leaves-weaken (length s)
          (eat-Leaves b'}' s₁ _ (λ e l. postfix_nilable-Leaves untyped (advance s₁) l)
            (λ e.
              Leaves-chain (shape_fields-Reads f s₁ (omega arith))
                λ _ r m. postfix_nilable-Leaves untyped r m))
          (omega arith)

  shape_fields-Reads : Reads 4 shape_fields
  shape_fields-Reads zero s h = absurd (omega arith)
  shape_fields-Reads (suc f) s h =
      Leaves-chain (spaces-Leaves {n = suc (length s)} s (omega arith)) λ _ s₁ k.
        Leaves-chain (ident-Leaves s₁) λ name s₂ l. Leaves-chain (spaces-Leaves s₂ l) λ _ s₃ m.
          Leaves-chain (expect-Leaves b':' (codes ": in shape type") s₃) λ _ s₄ n.
            Leaves-chain (ty-Reads f s₄ (omega arith)) λ t s₅ o.
              Leaves-chain (spaces-Leaves s₅ o) λ _ s₆ p.
                eat-Leaves b',' s₆ _
                  (λ e q.
                    Leaves-weaken (length s) (shape_fields-Reads f (advance s₆) (omega arith))
                      (omega arith))
                  (λ e.
                    Leaves-weaken (length s) (expect-Leaves b'}' (codes ", or } in shape type") s₆)
                      (omega arith))

  bracketed_types-Reads : Reads 4 bracketed_types
  bracketed_types-Reads zero s h = absurd (omega arith)
  bracketed_types-Reads (suc f) s h =
      Leaves-chain (spaces-Leaves {n = suc (length s)} s (omega arith)) λ _ s₁ k.
        Leaves-chain (ty-Reads f s₁ (omega arith)) λ first s₂ l.
          Leaves-chain (spaces-Leaves s₂ l) λ _ s₃ m.
            Leaves-chain (more_types-Loops f s₃ (omega arith)) λ args s₄ n.
              Leaves-chain (expect-Leaves b']' (codes "]") s₄) λ _ s₅ o. left {s = s₅} (omega arith)

  more_types-Loops : Loops 1 more_types
  more_types-Loops zero s h = absurd (omega arith)
  more_types-Loops (suc f) s h =
      eat-Leaves b',' s _
        (λ e l. Leaves-chain (spaces-Leaves (advance s) l) λ _ q k.
          Leaves-chain (ty-Reads f q (omega arith)) λ t r m.
            Leaves-chain (spaces-Leaves r m) λ _ w n.
              Leaves-chain (more_types-Loops f w (omega arith))
                λ args v o. left {s = v} (omega arith))
        (λ e. left (omega arith))

  pub param_list-Reads : Reads 7 param_list
  param_list-Reads zero s h = absurd (omega arith)
  param_list-Reads (suc f) s h =
      Leaves-chain (spaces-Leaves {n = suc (length s)} s (omega arith)) λ _ s₁ k.
        eat-Leaves b')' s₁ _ (λ e l. left {s = advance s₁} (omega arith))
          (λ e. Leaves-weaken (length s) (param_loop-Reads f s₁ (omega arith)) (omega arith))

  param_loop-Reads : Reads 6 param_loop
  param_loop-Reads zero s h = absurd (omega arith)
  param_loop-Reads (suc f) s h = Leaves-chain (param-Reads f s (omega arith)) λ ps s₁ k.
      Leaves-chain (spaces-Leaves s₁ k) λ _ s₂ l.
        eat-Leaves b',' s₂ _
          (λ e m. Leaves-chain (spaces-Leaves (advance s₂) m) λ _ s₃ n.
            Leaves-chain (param_loop-Reads f s₃ (omega arith))
              λ qs s₄ o. left {s = s₄} (omega arith))
          (λ e.
            Leaves-chain (expect-Leaves b')' (codes ", or )") s₂)
              λ _ s₃ m. left {s = s₃} (omega arith))

  param-Reads : Reads 5 param
  param-Reads zero s h = absurd (omega arith)
  param-Reads (suc f) s h =
      Leaves-chain (spaces-Leaves {n = suc (length s)} s (omega arith)) λ _ s₁ k.
        Leaves-if (peeks b'*' s₁) (rest_param f) _ s₁
          (λ e. Leaves-weaken (length s) (rest_param-Reads f s₁ (omega arith)) (omega arith))
          (λ e.
            eat-Leaves b'?' s₁ _
              (λ e₁ l.
                Leaves-weaken (length s) (optional_param-Reads f (advance s₁) (omega arith))
                  (omega arith))
              (λ e₁.
                Leaves-weaken (length s) (required_or_keyword_param-Reads f s₁ (omega arith))
                  (omega arith)))

  rest_param-Reads : Reads 4 rest_param
  rest_param-Reads zero s h = absurd (omega arith)
  rest_param-Reads (suc f) s h =
      Leaves-if (peeks_second b'*' s) _ _ s
        (λ e. Leaves-chain (step-Leaves {n = suc (length s)} s (omega arith)) λ _ s₁ j.
          Leaves-chain (step-Leaves {n = suc (length s)} s₁ j) λ _ s₂ k.
            Leaves-chain (ty-Reads f s₂ (omega arith)) λ t r l.
              Leaves-chain (skip_param_name-Leaves r l) λ _ q m. left {s = q} (omega arith))
        (λ e. Leaves-chain (step-Leaves {n = suc (length s)} s (omega arith)) λ _ s₁ j.
          Leaves-chain (ty-Reads f s₁ (omega arith))
            λ t r l. Leaves-chain (skip_param_name-Leaves r l) λ _ q m. left {s = q} (omega arith))

  optional_param-Reads : Reads 4 optional_param
  optional_param-Reads zero s h = absurd (omega arith)
  optional_param-Reads (suc f) s h =
      Leaves-chain (spaces-Leaves {n = suc (length s)} s (omega arith)) λ _ s₁ k.
        Leaves-if (names_keyword (ident s₁)) _ _ s₁
          (λ e. Leaves-chain (keyword_name-Leaves s₁) λ name r l.
            Leaves-chain (ty-Reads f r (omega arith)) λ t q m. left {s = q} (omega arith))
          (λ e.
            Leaves-chain (ty-Reads f s₁ (omega arith)) λ t r l.
              Leaves-chain (skip_param_name-Leaves r l) λ _ q m. left {s = q} (omega arith))

  required_or_keyword_param-Reads : Reads 4 required_or_keyword_param
  required_or_keyword_param-Reads zero s h = absurd (omega arith)
  required_or_keyword_param-Reads (suc f) s h =
      Leaves-if (names_keyword (ident s) && lower_name (ident s)) _ _ s
        (λ e.
          Leaves-chain (keyword_name-Leaves s) λ name r l.
            Leaves-chain (ty-Reads f r (omega arith)) λ t q m. left {s = q} (omega arith))
        (λ e.
          Leaves-chain (ty-Reads f s (omega arith))
            λ t r l. Leaves-chain (skip_param_name-Leaves r l) λ _ q m. left {s = q} (omega arith))
