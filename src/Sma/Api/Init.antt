-- ===== src/Sma/Api/Init.antt =====
-- The segment that `apc_sma_init` lays out.
use apcu.Prelude.{
  ℕ, ◌+◌, ◌^◌, ◌<◌, ◌≡◌, ◌≢◌, refl, ap, ◌∙◌, true, false, [], ◌∷◌, inl, inr, arith, ◌==◌,
}
use apcu.Sma.Platform.{Platform, first_block, block_header, wsub}
use apcu.Sma.Block.{Block, Segment, write}
use apcu.Sma.Api.{init_segment}
use apcu.Sma.Alloc.Extents.{Apart, total, Disjoint}
use apcu.Sma.Alloc.Frames.{sizes}
use apcu.Sma.Alloc.Handed.{Free}

written : (s : Segment) (o : ℕ) (b : Block) → (write s o b).block_at o ≡ b
unfolding write
written s o b = let same : (o == o) ≡ true = ground arith in rw same

not_written : (s : Segment) (o x : ℕ) (b : Block) → x ≢ o → (write s o b).block_at x ≡ s.block_at x
unfolding write
not_written s o x b h = let other : (x == o) ≡ false = ground arith in rw other

module _ ⦃p : Platform⦄ where
  -- The three blocks of `init_segment`, from the memory `s` on.
  laid_out : Segment → ℕ → ℕ → Segment
  laid_out s empty avail =
      write
        (write (write s first_block (record { size = 0; prev_size = 0; fnext = empty; fprev = 0 }))
          empty
          (record { size = avail; prev_size = 0; fnext = empty + avail; fprev = first_block }))
        (empty + avail) (record { size = 0; prev_size = avail; fnext = 0; fprev = empty })

  laid_out-avail : (s : Segment) (empty avail : ℕ) → (laid_out s empty avail).avail ≡ s.avail
  unfolding laid_out write
  laid_out-avail s empty avail = refl

  laid_out-Free :
      (s : Segment) (empty avail : ℕ)
      → first_block < empty
      → 0 < avail
      → avail < 2 ^ 64
      → s.avail ≡ avail
      → Free (laid_out s empty avail) (empty ∷ (empty + avail) ∷ [])
  unfolding laid_out Apart total Disjoint
  laid_out-Free s empty avail above pos bounded e =
      let b₁ : Block = record { size = 0; prev_size = 0; fnext = empty; fprev = 0 } in
      let b₂ : Block = record {
        size = avail;
        prev_size = 0;
        fnext = empty + avail;
        fprev = first_block;
      } in
      let b₃ : Block = record { size = 0; prev_size = avail; fnext = 0; fprev = empty } in
      let last = empty + avail in
      let s₁ = write s first_block b₁ in
      let s₂ = write s₁ empty b₂ in
      let s₃ = write s₂ last b₃ in
      let at_first : s₃.block_at first_block ≡ b₁ =
        not_written s₂ last first_block b₃ (λ q. absurd (omega (arith, q, above)))
        ∙ not_written s₁ empty first_block b₂ (λ q. absurd (omega (arith, q, above)))
        ∙ written s first_block b₁ in
      let at_empty : s₃.block_at empty ≡ b₂ =
        not_written s₂ last empty b₃ (λ q. absurd (omega (arith, q, pos))) ∙ written s₁ empty b₂ in
      let at_last : s₃.block_at last ≡ b₃ = written s₂ last b₃ in
      let size_empty : sizes s₃ empty ≡ avail = ap (λ b. b.size) at_empty in
      let size_last : sizes s₃ last ≡ 0 = ap (λ b. b.size) at_last in
      let same = laid_out-avail s empty avail ∙ e in
      record {
        linked = (
          ap (λ b. b.fnext) at_first,
          ap (λ b. b.fprev) at_empty,
          omega (arith, above),
          (
            ap (λ b. b.fnext) at_empty,
            ap (λ b. b.fprev) at_last,
            omega (arith, above),
            ap (λ b. b.fnext) at_last,
          ),
        );
        once = (
          ((λ q. absurd (omega (arith, q, above))), ((λ q. absurd (omega (arith, q, above))), tt)),
          (((λ q. absurd (omega (arith, q, pos))), tt), (tt, tt)),
        );
        apart = (
          (λ x m. elim m [ inl q ↦ inl (omega (arith, q, size_empty)) | inr n ↦ absurd n ]),
          ((λ x m. absurd m), tt),
        );
        above = λ x m. elim m [
          | inl q ↦ omega (arith, q, above)
          | inr m' ↦ elim m' [ inl q ↦ omega (arith, q, above) | inr n ↦ absurd n ]
        ];
        filled = omega (arith, size_empty, size_last, same);
        bounded = omega (arith, same, bounded);
      }

  -- A segment of fewer than 2^64 bytes that has room for its header, three blocks and a byte: after
  -- apc_sma_init the free list is well-formed; it holds the bytes between the headers as one block, and
  -- the empty block at the end.
  pub init_segment-Free :
      (size min_alloc_size : ℕ)
      → first_block + block_header + block_header < size
      → size < 2 ^ 64
      → (let empty = first_block + block_header in
          let avail = (init_segment size min_alloc_size).avail in
          Free (init_segment size min_alloc_size) (empty ∷ (empty + avail) ∷ [])
          × (first_block + block_header + avail + block_header ≡ size))
  unfolding init_segment laid_out write
  init_segment-Free size min_alloc_size room bounded =
      let header : 0 < block_header =
        omega (arith, p.align_word-le p.sizeof_block_t, p.sizeof_block_t_pos) in
      let avail = wsub (wsub (wsub size first_block) block_header) block_header in
      let fits : first_block + block_header + avail + block_header ≡ size =
        omega (arith, room, bounded) in
      (
        laid_out-Free _ (first_block + block_header) avail (omega (arith, header))
            (omega (arith, fits, room)) (omega (arith, fits, bounded, header)) refl,
        fits,
      )
