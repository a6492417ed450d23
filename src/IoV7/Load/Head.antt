-- ===== src/IoV7/Load/Head.antt =====
-- The first bytes of a file of turbovec/src/io_v7.rs read back, and its codebook.
use turbovec.Common.{
  ℕ, suc, ◌+◌, ◌*◌, ◌^◌, ◌≤◌, ◌<◌, ◌≡◌, refl, inl, inr, ◌⊎◌, true, false, some, List, [], ◌∷◌, ◌++◌,
  length, All, leb, le→leb, ◌==◌, to_le_bytes, arith,
}
use mathlib.Core.List.{append_assoc}
use turbovec.IoV7.Geo.{layout_seq, layout_planes}
use turbovec.IoV7.Header.{SyncSource, words}
use turbovec.IoV7.Header.Reading.{At, At-start, At-skip, At-byte, At-read, At-word}
use turbovec.IoV7.Full.{sb_head, v7_magic, v8_magic, v7_version, v8_version}
use turbovec.IoV7.Load.{parse_head, match_words}

-- What the first bytes may say.
pub record IsHead (src : SyncSource) : Type 0 where
  pub version : (src.version ≡ 8) ⊎ ((src.version ≡ 7) × (src.layout ≡ layout_seq))
  pub low : 2 ≤ src.bit_width
  pub high : src.bit_width ≤ 4
  pub kind : src.kind < 256
  pub layout :
      (src.layout ≡ layout_seq) ⊎ ((src.layout ≡ layout_planes) × ((src.bit_width == 3) ≡ false))

At-behind_of : (x rest : List ℕ) (p : ℕ) → length x ≡ p → At (x ++ rest) p rest
At-behind_of x rest p e =
    let place : 0 + length x ≡ p = omega (arith, e) in
    rw place at (At-skip (x ++ rest) 0 x rest (At-start (x ++ rest)))

pub parse_head-sb_head :
    (src : SyncSource) (more : List ℕ)
    → IsHead src
    → 4 ≤ length more
    → parse_head (sb_head src ++ more) src.kind
      ≡ some (src.version, src.bit_width, src.kind, src.layout)
unfolding parse_head sb_head
parse_head-sb_head src more v long = elim v.version [
  | inl e ↦
      let rest = src.bit_width ∷ src.kind ∷ src.layout ∷ more in
      let raw = v8_magic ++ v8_version ∷ rest in
      let far : leb 11 (length raw) ≡ true = le→leb _ _ (omega (arith, long)) in
      rw
        (
          e,
          far,
          At-byte raw 4 v8_version rest (At-behind_of v8_magic (v8_version ∷ rest) 4 refl),
          At-byte raw 5 src.bit_width (src.kind ∷ src.layout ∷ more)
              (At-behind_of (v8_magic ++ v8_version ∷ []) rest 5 refl),
          At-byte raw 6 src.kind (src.layout ∷ more) (
              At-behind_of (v8_magic ++ v8_version ∷ src.bit_width ∷ [])
                (src.kind ∷ src.layout ∷ more) 6 refl),
          At-byte raw 7 src.layout more (
              At-behind_of (v8_magic ++ v8_version ∷ src.bit_width ∷ src.kind ∷ [])
                (src.layout ∷ more) 7 refl),
        )
        (ground (arith, v.low, v.high, v.layout, e))
  | inr (e, seq) ↦
      let rest = src.bit_width ∷ src.kind ∷ more in
      let raw = v7_magic ++ v7_version ∷ rest in
      let far : leb 11 (length raw) ≡ true = le→leb _ _ (omega (arith, long)) in
      rw
        (
          e,
          far,
          At-byte raw 4 v7_version rest (At-behind_of v7_magic (v7_version ∷ rest) 4 refl),
          At-byte raw 5 src.bit_width (src.kind ∷ more)
              (At-behind_of (v7_magic ++ v7_version ∷ []) rest 5 refl),
          At-byte raw 6 src.kind more
              (At-behind_of (v7_magic ++ v7_version ∷ src.bit_width ∷ []) (src.kind ∷ more) 6 refl),
        )
        (ground (arith, v.low, v.high, seq, e))
]

pub match_words-words :
    (bytes ws : List ℕ) (p : ℕ) (rest : List ℕ)
    → All (λ w. w < 2 ^ 32) ws
    → At bytes p (words ws ++ rest)
    → match_words bytes p ws ≡ some (p + length ws * 4)
unfolding match_words words
match_words-words bytes [] p rest h a = let e : p + 0 * 4 ≡ p = omega arith in rw e refl
match_words-words bytes (w ∷ ws) p rest (fits, h) a =
    let a1 : At bytes p (to_le_bytes 4 w ++ (words ws ++ rest)) =
      rw (append_assoc (to_le_bytes 4 w) (words ws) rest) at a in
    let self : (w == w) ≡ true = ground arith in
    let last : p + 4 + length ws * 4 ≡ p + suc (length ws) * 4 = omega arith in
    rw
      (
        At-read bytes p 4 w (words ws ++ rest) fits a1,
        self,
        match_words-words bytes ws (p + 4) rest h (At-word bytes p 4 w (words ws ++ rest) a1),
        last,
      )
      refl
