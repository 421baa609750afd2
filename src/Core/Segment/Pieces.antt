-- ===== src/Core/Segment/Pieces.antt =====
-- `piece_len_for` and `clamp_max_piece` of crates/xde/src/core/segment.rs, and their panic.
use xde.Prelude.{
  ℕ, ◌≤◌, ◌<◌, ◌≡◌, ◌/◌, ◌↔◌, ◌⊎◌, inl, ◌&&◌, Option, none, some, arith, ltb, leb, max, clamp,
  ◌>>=◌, if◌then◌else◌,
}
use xde.Core.Units.{Float, bytes_in}
use xde.Core.SlotMap.{SlotMap}
use xde.Core.Segment.Plan.{Assignment, Plan, align_up, clamp_max_piece}
use xde.Core.Segment.Claim.{piece_len_for}

clamp-none : (v lo hi : ℕ) → (clamp v lo hi ≡ none) ↔ (hi < lo)
unfolding clamp
clamp-none v lo hi = ((λ h. ground arith), λ h. ground arith)

bind-none : (o : Option ℕ) (f : ℕ → ℕ) → ((o >>= λ n. some (f n)) ≡ none) ↔ (o ≡ none)
bind-none none f = ((λ h. h), λ h. h)
bind-none (some x) f = ((λ h. cc), λ h. cc)

module _ ⦃fl : Float⦄ ⦃sm : SlotMap (Assignment fl.F)⦄ where
  -- piece_len_for panics exactly when its bounds cross: outside the tail of the transfer when
  -- max_piece is below min_piece, and in the tail when max_piece is below tail_min_piece and not
  -- above what remains.
  pub piece_len_for-none :
      (p : Plan) (est : fl.F) (r : ℕ)
      → (piece_len_for p est r ≡ none) ↔ (
          ((p.cfg.tail_threshold < r) × (p.cfg.max_piece < p.cfg.min_piece))
          ⊎ ((r ≤ p.cfg.tail_threshold)
              × (p.cfg.max_piece ≤ r)
              × (p.cfg.max_piece < p.cfg.tail_min_piece)))
  unfolding piece_len_for
  piece_len_for-none p est r =
      let v = bytes_in est p.piece_duration in
      let tail = leb r p.cfg.tail_threshold in
      let low : ℕ = if tail then p.cfg.tail_min_piece else p.cfg.min_piece in
      let high : ℕ =
        if tail && ltb r p.cfg.max_piece then max (p.cfg.max_piece / 8) low else p.cfg.max_piece in
      let up = λ (n : ℕ). align_up n p.cfg.alignment in
      let crossed = clamp-none v low high in
      let bind = bind-none (clamp v low high) up in
      (
        (λ h. let c = crossed.0 (bind.0 h) in ground arith),
        (λ w. bind.1 (crossed.1 (ground arith))),
      )

  -- A destination's hint that is below min_piece makes the next claim of a fresh transfer panic:
  -- after clamp_max_piece with a hint between 1 and min_piece - 1, piece_len_for has no value
  -- while more than tail_threshold bytes remain.
  pub clamp_max_piece-panic :
      (p : Plan) (hint : ℕ) (est : fl.F) (r : ℕ)
      → 0 < hint
      → hint < p.cfg.min_piece
      → p.cfg.tail_threshold < r
      → piece_len_for (clamp_max_piece p hint) est r ≡ none
  unfolding clamp_max_piece
  clamp_max_piece-panic p hint est r h k l =
      (piece_len_for-none (clamp_max_piece p hint) est r).1 (inl (ground arith))
