-- ===== src/Types/Molecule/Slices.antt =====
-- Slices of a byte string that is written as parts put together.
use rgbpp_indexer.Common.{
  ℕ, ◌+◌, ◌-◌, ◌≡◌, refl, ap, ◌∙◌, List, [], ◌++◌, arith, length, take, drop, length-append,
  take-append, drop-append, append-nil,
}
use rgbpp_indexer.Types.Error.{ok, slice, slice-eq-ok}

-- The slice that lies behind `pre` and is as long as `mid`.
pub slice_mid :
    (pre mid post : List ℕ) (start end : ℕ)
    → start ≡ length pre
    → end ≡ length pre + length mid
    → slice (pre ++ (mid ++ post)) start end ≡ ok mid
slice_mid pre mid post start end s e =
    rw (s, e)
      (slice-eq-ok (pre ++ (mid ++ post)) (length pre) (length pre + length mid) (omega arith)
          (omega (arith, length-append pre (mid ++ post), length-append mid post))
        ∙ ap ok (cut ∙ take-append mid post))
  where
    n : length pre + length mid - length pre ≡ length mid
    n = omega arith

    cut :
        take (length pre + length mid - length pre) (drop (length pre) (pre ++ (mid ++ post)))
        ≡ take (length mid) (mid ++ post)
    cut = rw (n, drop-append pre (mid ++ post))

pub slice_head :
    (mid post : List ℕ) (end : ℕ) → end ≡ length mid → slice (mid ++ post) 0 end ≡ ok mid
slice_head mid post end e = slice_mid [] mid post 0 end refl (omega arith)

pub slice_tail :
    (pre post : List ℕ) (start end : ℕ)
    → start ≡ length pre
    → end ≡ length pre + length post
    → slice (pre ++ post) start end ≡ ok post
slice_tail pre post start end s e = rw (append-nil post) at (slice_mid pre post [] start end s e)
