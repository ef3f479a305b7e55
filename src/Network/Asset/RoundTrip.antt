-- ===== src/Network/Asset/RoundTrip.antt =====
-- Splitting an asset and assembling its chunks.
use cartridge_runtime.Prelude.{
  ℕ, zero, suc, ◌+◌, ◌*◌, ◌≤◌, ◌≡◌, refl, sym, ap, ◌∙◌, ◌⊎◌, inl, inr, true, false, not, ◌||◌, List,
  [], ◌∷◌, ◌++◌, arith, ltb, ◌==◌, ==_iff, length, take, drop, length-take, length-drop,
  take-append-drop,
}
use mathlib.Core.List.{append-nil, append_assoc}
use cartridge_runtime.Prelude.Text.{Text, Bytes, text_eq, text_eq_iff}
use cartridge_runtime.Prelude.Results.{ok, ◌>>=◌}
use cartridge_runtime.Network.Limits.{max_asset_bytes, asset_chunk_bytes}
use cartridge_runtime.Network.Asset.{
  AssetChunk, Digest, chunks, number_chunks, split_asset, assemble_from, assemble_asset,
}

text_eq_refl : (s : Text) → text_eq s s ≡ true
text_eq_refl s = (text_eq_iff s s).1 refl

not-ltb : (a b : ℕ) → b ≤ a → ltb a b ≡ false
not-ltb a b l = ground arith

-- The offset counts the chunks before, unless nothing is left.
abbrev At : ℕ → ℕ → Bytes → Type 0
At offset index bytes = (length bytes ≡ 0) ⊎ (offset ≡ index * asset_chunk_bytes)

le-or-le : (a b : ℕ) → (a ≤ b) ⊎ (b ≤ a)
le-or-le a b = omega arith

next-At :
    (offset index : ℕ) (bytes : Bytes)
    → offset ≡ index * asset_chunk_bytes
    → At (offset + length (take asset_chunk_bytes bytes)) (index + 1) (drop asset_chunk_bytes bytes)
next-At offset index bytes e = elim (le-or-le asset_chunk_bytes (length bytes)) [
  | inl long ↦ inr (omega (arith, long, e, length-take asset_chunk_bytes bytes))
  | inr short ↦ inl (omega (arith, short, length-drop asset_chunk_bytes bytes))
]

-- The test of `assemble_asset` on a chunk of `split_asset`.
accepts-chunk :
    (digest : Digest) (identity : Text) (total offset : ℕ) (bytes : Bytes)
    → (not (text_eq identity identity)
        || not (total == total)
        || not (offset == offset)
        || ltb asset_chunk_bytes (length (take asset_chunk_bytes bytes))
        || not (
            text_eq
              (digest (take asset_chunk_bytes bytes))
              (digest (take asset_chunk_bytes bytes))))
      ≡ false
accepts-chunk digest identity total offset bytes =
    rw
      (
        text_eq_refl identity,
        text_eq_refl (digest (take asset_chunk_bytes bytes)),
        (==_iff total total).1 refl,
        (==_iff offset offset).1 refl,
        short,
      )
      refl
  where
    short : ltb asset_chunk_bytes (length (take asset_chunk_bytes bytes)) ≡ false
    short =
        not-ltb asset_chunk_bytes (length (take asset_chunk_bytes bytes))
          (omega (arith, length-take asset_chunk_bytes bytes))

assemble_from-step :
    (digest : Digest) (identity : Text) (total offset : ℕ) (output : Bytes) (c : AssetChunk)
    (cs : List AssetChunk)
    → (not (text_eq c.asset_sha256 identity)
        || not (c.total_bytes == total)
        || not (c.offset == offset)
        || ltb asset_chunk_bytes (length c.bytes)
        || not (text_eq (digest c.bytes) c.chunk_sha256))
      ≡ false
    → assemble_from digest identity total output offset (c ∷ cs)
      ≡ assemble_from digest identity total (output ++ c.bytes) (offset + length c.bytes) cs
unfolding assemble_from
assemble_from-step digest identity total offset output c cs passes = rw passes refl

assemble_from-number_chunks :
    (digest : Digest) (identity : Text) (total fuel index offset : ℕ) (output bytes : Bytes)
    → length bytes ≤ fuel
    → At offset index bytes
    → assemble_from digest identity total output offset
        (number_chunks digest identity total index (chunks fuel asset_chunk_bytes bytes))
      ≡ ok (output ++ bytes)
unfolding assemble_from number_chunks chunks
assemble_from-number_chunks digest identity total zero index offset output [] l a =
    ap ok (sym (append-nil output))
assemble_from-number_chunks digest identity total zero index offset output (b ∷ bytes) l a =
    absurd (omega (arith, l))
assemble_from-number_chunks digest identity total (suc fuel) index offset output [] l a =
    ap ok (sym (append-nil output))
assemble_from-number_chunks digest identity total (suc fuel) index offset output (b ∷ bytes) l
      (inl e) =
    absurd (omega (arith, e))
assemble_from-number_chunks digest identity total (suc fuel) index offset output (b ∷ bytes) l
      (inr e) =
    assemble_from-step digest identity total offset output _ _
      (rw e (accepts-chunk digest identity total (index * asset_chunk_bytes) (b ∷ bytes)))
    ∙ assemble_from-number_chunks digest identity total fuel (index + 1)
        (offset + length (take asset_chunk_bytes (b ∷ bytes)))
        (output ++ take asset_chunk_bytes (b ∷ bytes)) (drop asset_chunk_bytes (b ∷ bytes))
        (omega (arith, l, length-drop asset_chunk_bytes (b ∷ bytes)))
        (next-At offset index (b ∷ bytes) e)
    ∙ ap ok (
        append_assoc output (take asset_chunk_bytes (b ∷ bytes))
          (drop asset_chunk_bytes (b ∷ bytes))
        ∙ ap (λ t. output ++ t) (take-append-drop asset_chunk_bytes (b ∷ bytes)))

-- The tests of `assemble_asset` around its loop.
assemble_asset_complete :
    (digest : Digest) (bytes : Bytes) (c : AssetChunk) (cs : List AssetChunk)
    → length bytes ≤ max_asset_bytes
    → c.asset_sha256 ≡ digest bytes
    → c.total_bytes ≡ length bytes
    → assemble_from digest c.asset_sha256 c.total_bytes [] 0 (c ∷ cs) ≡ ok bytes
    → assemble_asset digest (c ∷ cs) ≡ ok bytes
unfolding assemble_asset
assemble_asset_complete digest bytes c cs l i t loop =
    rw
      (
        loop,
        i,
        t,
        not-ltb max_asset_bytes (length bytes) l,
        text_eq_refl (digest bytes),
        (==_iff (length bytes) (length bytes)).1 refl,
      )
      refl

-- An asset within the limit comes back from its chunks.
pub assemble_asset-split_asset :
    (digest : Digest) (bytes : Bytes)
    → length bytes ≤ max_asset_bytes
    → (split_asset digest bytes >>= assemble_asset digest) ≡ ok bytes
unfolding split_asset number_chunks chunks assemble_asset
assemble_asset-split_asset digest [] l = refl
assemble_asset-split_asset digest (b ∷ bytes) l =
    rw (not-ltb max_asset_bytes (length (b ∷ bytes)) l) (
      assemble_asset_complete digest (b ∷ bytes) _ _ l refl refl (
        assemble_from-number_chunks digest (digest (b ∷ bytes)) (length (b ∷ bytes))
          (length (b ∷ bytes)) 0 0 [] (b ∷ bytes) (omega arith) (inr refl)))
