-- ===== src/Network/Asset.antt =====
-- Assets in chunks, crates/cartridge-network/src/lib.rs. The hexadecimal SHA-256 of bytes is
-- third-party.
pub mod RoundTrip
mod Examples
use cartridge_runtime.Prelude.{
  ℕ, zero, suc, ◌+◌, ◌*◌, Bool, true, false, not, ◌||◌, List, [], ◌∷◌, ◌++◌, ltb, leb, ◌==◌, length,
  take, drop, if◌then◌else◌,
}
use cartridge_runtime.Prelude.Text.{Text, Bytes, text_eq}
use cartridge_runtime.Prelude.Results.{ok, err, reject, ◌>>=◌, ◌>>◌}
use cartridge_runtime.Network.Limits.{
  Result, asset_too_large, chunk_invalid, asset_identity, max_asset_bytes, asset_chunk_bytes,
}

pub record AssetChunk : Type 0 where
  pub asset_sha256 : Text
  pub offset : ℕ
  pub total_bytes : ℕ
  pub bytes : Bytes
  pub chunk_sha256 : Text

abbrev pub Digest : Type 0
Digest = Bytes → Text

-- `chunks(n)`, by as much fuel as there are bytes.
unfoldable pub chunks : ℕ → ℕ → Bytes → List Bytes
chunks zero n bytes = []
chunks (suc fuel) n [] = []
chunks (suc fuel) n (b ∷ bytes) = take n (b ∷ bytes) ∷ chunks fuel n (drop n (b ∷ bytes))

-- `enumerate` and `map` in `split_asset`, from an index.
unfoldable pub number_chunks : Digest → Text → ℕ → ℕ → List Bytes → List AssetChunk
number_chunks digest identity total index [] = []
number_chunks digest identity total index (chunk ∷ rest) =
    record {
      asset_sha256 = identity;
      offset = index * asset_chunk_bytes;
      total_bytes = total;
      bytes = chunk;
      chunk_sha256 = digest chunk;
    }
    ∷ number_chunks digest identity total (index + 1) rest

pub split_asset : Digest → Bytes → Result (List AssetChunk)
split_asset digest bytes = do
  reject (ltb max_asset_bytes (length bytes)) asset_too_large
  ok (
      number_chunks digest (digest bytes) (length bytes) 0
        (chunks (length bytes) asset_chunk_bytes bytes))

-- The loop of `assemble_asset`, from the bytes put out so far and the offset.
unfoldable pub assemble_from : Digest → Text → ℕ → Bytes → ℕ → List AssetChunk → Result Bytes
assemble_from digest expected total output offset [] = ok output
assemble_from digest expected total output offset (c ∷ cs) = do
  reject
      (not (text_eq c.asset_sha256 expected)
        || not (c.total_bytes == total)
        || not (c.offset == offset)
        || ltb asset_chunk_bytes (length c.bytes)
        || not (text_eq (digest c.bytes) c.chunk_sha256))
      chunk_invalid
  assemble_from digest expected total (output ++ c.bytes) (offset + length c.bytes) cs

pub assemble_asset : Digest → List AssetChunk → Result Bytes
assemble_asset digest [] = ok []
assemble_asset digest (c ∷ cs) = do
  reject (ltb max_asset_bytes c.total_bytes) asset_too_large
  output ← assemble_from digest c.asset_sha256 c.total_bytes [] 0 (c ∷ cs)
  reject (not (length output == c.total_bytes) || not (text_eq (digest output) c.asset_sha256))
      asset_identity
  ok output
