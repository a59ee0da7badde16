-- ===== src/Rbs/Comment/Ends.antt =====
-- `parse_rbs_comment` comes to an end.
use itaruby.Base.{
  ℕ, zero, suc, ◌+◌, ◌*◌, ◌<◌, Bool, true, false, ◌&&◌, [], ◌∷◌, Text, codes, ◌==◌, ◌≢◌,
  if◌then◌else◌, nat_eq, text_eq, length, arith,
}
use itaruby.Rbs.Outcome.{
  out_of_fuel, pure, fail, Leaves, left, failed, Leaves-chain, Leaves-if, Leaves-ends,
}
use itaruby.Rbs.Scan.{
  peeks, peeks_second, advance, spaces, ident, step-Leaves, eat-Leaves, eaten-Leaves, spaces-Leaves,
  expect-Leaves, expect_arrow-Leaves, ident-Leaves,
}
use itaruby.Rbs.Parser.Ends.{Leaves-weaken, Reads, Loops, ty-Reads, param_list-Reads}
use itaruby.Rbs.Comment.{
  any_byte, is_ok, type_param_names, parse_type_params, placeholder, accepts, block_param_list,
  skip_block_self_type, optional_block_params, optional_params, block_clause, marked_block,
  skip_block_type, at_end, rbs_comment, parse_rbs_comment,
}

any_byte-Leaves : (s : Text) → Leaves (length s) (any_byte s)
unfolding any_byte
any_byte-Leaves [] = failed
any_byte-Leaves (c ∷ s) = left (omega arith)

-- Spaces that a condition skips, or none.
skipped-Leaves :
    {n : ℕ} (b : Bool) (s : Text) → length s < n → Leaves n ((if b then spaces else pure tt) s)
skipped-Leaves true s h = spaces-Leaves s h
skipped-Leaves false s h = left h

type_param_names-Loops :
    (f d : ℕ) (at_name : Bool) (s : Text)
    → length s < f
    → Leaves (suc (length s)) (type_param_names f d at_name s)
unfolding type_param_names
type_param_names-Loops zero d at_name s h = absurd (omega arith)
type_param_names-Loops (suc f) zero at_name s h = left (omega arith)
type_param_names-Loops (suc f) (suc d) at_name s h =
    Leaves-chain (skipped-Leaves {n = suc (length s)} (d == 0 && at_name) s (omega arith)) λ _ s₁ k.
      Leaves-if (d == 0 && at_name && is_ok (ident s₁)) _ _ s₁
        (λ e. Leaves-chain (ident-Leaves s₁) λ name r l.
          Leaves-chain (type_param_names-Loops f (suc d) false r (omega arith))
            λ names q m. left {s = q} (omega arith))
        (λ e.
          eat-Leaves b'[' s₁ _
            (λ e l.
              Leaves-weaken (suc (length s))
                (type_param_names-Loops f (suc (suc d)) false (advance s₁) (omega arith))
                (omega arith))
            (λ e.
              eat-Leaves b']' s₁ _
                (λ e l.
                  Leaves-weaken (suc (length s))
                    (type_param_names-Loops f d false (advance s₁) (omega arith)) (omega arith))
                (λ e.
                  eat-Leaves b',' s₁ _
                    (λ e l.
                      Leaves-weaken (suc (length s))
                        (type_param_names-Loops f (suc d) (d == 0) (advance s₁) (omega arith))
                        (omega arith))
                    (λ e. Leaves-chain (any_byte-Leaves s₁) λ _ r l.
                      Leaves-weaken (suc (length s))
                        (type_param_names-Loops f (suc d) false r (omega arith)) (omega arith)))))

parse_type_params-Loops : Loops 0 parse_type_params
unfolding parse_type_params
parse_type_params-Loops f s h =
    Leaves-chain (spaces-Leaves {n = suc (length s)} s (omega arith)) λ _ s₁ k.
      eat-Leaves b'[' s₁ _
        (λ e l.
          Leaves-weaken (suc (length s))
            (type_param_names-Loops f 1 true (advance s₁) (omega arith)) (omega arith))
        (λ e. left k)

placeholder-Leaves : (s : Text) → Leaves (suc (length s)) (placeholder s)
unfolding placeholder
placeholder-Leaves s =
    eat-Leaves b'?' s _
      (λ e l. Leaves-chain (spaces-Leaves (advance s) l) λ _ r k. eaten-Leaves b')' r (omega arith))
      (λ e. left {s = s} (omega arith))

block_param_list-Loops : Loops 7 block_param_list
unfolding block_param_list
block_param_list-Loops f s h =
    Leaves-chain (spaces-Leaves {n = suc (length s)} s (omega arith)) λ _ s₁ k.
      Leaves-if (accepts (placeholder s₁)) _ _ s₁
        (λ e. Leaves-chain (placeholder-Leaves s₁) λ b r l. left {s = r} (omega arith))
        (λ e.
          Leaves-chain (param_list-Reads f s₁ (omega arith)) λ ps r l. left {s = r} (omega arith))

skip_block_self_type-Loops : Loops 0 skip_block_self_type
unfolding skip_block_self_type
skip_block_self_type-Loops f s h =
    eat-Leaves b'[' s _
      (λ e l. Leaves-chain (spaces-Leaves (advance s) l) λ _ s₁ k.
        Leaves-chain (ident-Leaves s₁) λ name s₂ m.
          Leaves-if (name == codes "self") _ (fail (codes "self: in block self-type")) s₂
            (λ e. Leaves-chain (spaces-Leaves s₂ m) λ _ s₃ n.
              Leaves-chain (expect-Leaves b':' (codes ":") s₃) λ _ s₄ o.
                Leaves-chain (ty-Reads f s₄ (omega arith)) λ t s₅ p.
                  Leaves-chain (spaces-Leaves s₅ p) λ _ s₆ q.
                    Leaves-chain (expect-Leaves b']' (codes "]") s₆)
                      λ _ s₇ r. spaces-Leaves s₇ (omega arith))
            (λ e. failed))
      (λ e. left (omega arith))

optional_block_params-Loops : Loops 15 optional_block_params
unfolding optional_block_params
optional_block_params-Loops f s h =
    eat-Leaves b'(' s _
      (λ e l.
        Leaves-chain (block_param_list-Loops f (advance s) (omega arith))
          λ _ r m. spaces-Leaves r (omega arith))
      (λ e. left (omega arith))

block_clause-Reads : Reads 15 block_clause
unfolding block_clause
block_clause-Reads f s h =
    Leaves-chain (spaces-Leaves {n = suc (length s)} s (omega arith)) λ _ s₁ k.
      Leaves-chain (optional_block_params-Loops f s₁ (omega arith)) λ _ s₂ l.
        Leaves-chain (skip_block_self_type-Loops f s₂ (omega arith)) λ _ s₃ m.
          Leaves-chain (expect_arrow-Leaves (codes "-> in block type") s₃) λ _ s₄ n.
            Leaves-chain (ty-Reads f s₄ (omega arith)) λ t s₅ o.
              Leaves-chain (spaces-Leaves s₅ o)
                λ _ s₆ p. Leaves-weaken (length s) (expect-Leaves b'}' (codes "}") s₆) (omega arith)

marked_block-Loops :
    (f : ℕ) (marker : Bool) (s : Text)
    → 8 * length s + 15 < f
    → Leaves (suc (length s)) (marked_block f marker s)
unfolding marked_block
marked_block-Loops f marker s h =
    eat-Leaves b'{' s _
      (λ e l.
        Leaves-weaken (suc (length s)) (block_clause-Reads f (advance s) (omega arith))
          (omega arith))
      (λ e.
        Leaves-if marker (fail (codes "{ after ?")) (pure tt) s (λ q. failed)
          (λ q. left (omega arith)))

skip_block_type-Loops : Loops 15 skip_block_type
unfolding skip_block_type
skip_block_type-Loops f s h =
    Leaves-chain (spaces-Leaves {n = suc (length s)} s (omega arith)) λ _ s₁ k.
      Leaves-if (peeks b'?' s₁ && peeks_second b'{' s₁) _ _ s₁
        (λ e. Leaves-chain (step-Leaves {n = suc (length s)} s₁ k) λ _ s₂ l.
          Leaves-weaken (suc (length s)) (marked_block-Loops f true s₂ (omega arith)) (omega arith))
        (λ e.
          Leaves-weaken (suc (length s)) (marked_block-Loops f false s₁ (omega arith))
            (omega arith))

at_end-Leaves : (s : Text) → Leaves (suc (length s)) (at_end s)
unfolding at_end
at_end-Leaves [] = left (omega arith)
at_end-Leaves (c ∷ s) = failed

optional_params-Loops : Loops 15 optional_params
unfolding optional_params
optional_params-Loops f s h =
    eat-Leaves b'(' s _
      (λ e l.
        Leaves-weaken (suc (length s)) (param_list-Reads f (advance s) (omega arith)) (omega arith))
      (λ e. left (omega arith))

rbs_comment-Reads : Reads 15 rbs_comment
unfolding rbs_comment
rbs_comment-Reads f s h =
    Leaves-chain (spaces-Leaves {n = suc (length s)} s (omega arith)) λ _ s₁ k.
      Leaves-chain (parse_type_params-Loops f s₁ (omega arith)) λ tps s₂ l.
        Leaves-chain (spaces-Leaves s₂ l) λ _ s₃ m.
          Leaves-chain (optional_params-Loops f s₃ (omega arith)) λ params s₄ n.
            Leaves-chain (spaces-Leaves s₄ n) λ _ s₅ o.
              Leaves-chain (skip_block_type-Loops f s₅ (omega arith)) λ _ s₆ p.
                Leaves-chain (spaces-Leaves s₆ p) λ _ s₇ q.
                  Leaves-chain (expect_arrow-Leaves (codes "->") s₇) λ _ s₈ r.
                    Leaves-chain (ty-Reads f s₈ (omega arith)) λ t s₉ u.
                      Leaves-chain (spaces-Leaves s₉ u) λ _ sa v.
                        Leaves-chain (at_end-Leaves sa) λ _ sb w. left {s = sb} (omega arith)

-- parse_rbs_comment comes to an end on every input: a signature or a message, never out of fuel.
pub parse_rbs_comment-ends : (input : Text) → parse_rbs_comment input ≢ out_of_fuel
unfolding parse_rbs_comment
parse_rbs_comment-ends input =
    Leaves-ends (rbs_comment-Reads (8 * length input + 16) input (omega arith))
