-- ===== src/Manifest/Integrity.antt =====
-- The digests of a package's assets, crates/cartridge-core/src/manifest.rs.
pub mod Total
use cartridge_runtime.Prelude.{
  ℕ, zero, suc, ◌+◌, ◌/◌, ◌%◌, ◌^◌, Bool, not, ◌&&◌, some, none, List, [], ◌∷◌, ◌++◌, ◌==◌, length,
  is_empty, if◌then◌else◌,
}
use cartridge_runtime.Prelude.Text.{Text, Bytes, len}
use cartridge_runtime.Prelude.Text
use cartridge_runtime.Prelude.Map.{Map}
use cartridge_runtime.Prelude.Strings.{eq_ignore_ascii_case}
use cartridge_runtime.Prelude.Results.{ok, err, reject, ok_or, ◌>>=◌, ◌>>◌}
use cartridge_runtime.Manifest.Types.{
  Crates, Integrity, Result, bad_asset, bad_component, bad_root, root_mismatch, out_of_fuel,
}
use cartridge_runtime.Manifest.Names.{is_sha256, normalize_relative_path}

-- `to_be_bytes` of a `u64`, by its lower bytes.
unfoldable pub be_bytes : ℕ → ℕ → Bytes
be_bytes zero n = []
be_bytes (suc w) n = (n / 256 ^ w) % 256 ∷ be_bytes w n

module _ {V R : Type 0} (crates : Crates V R) where
  -- The hashes of the leaves.
  unfoldable pub leaves : Map Text Text → Result (List Bytes)
  unfolding be_bytes
  leaves [] = ok []
  leaves ((path, hex) ∷ assets) = do
    digest ← ok_or (crates.hex_decode hex) bad_asset
    reject (not (length digest == 32)) bad_asset
    nodes ← leaves assets
    ok (crates.sha256 (0 ∷ be_bytes 8 (len path) ++ Text.bytes path ++ digest) ∷ nodes)

  -- The parents of one level, where the last of an odd number is paired with itself.
  unfoldable pub parents : List Bytes → List Bytes
  parents [] = []
  parents (left ∷ []) = crates.sha256 (1 ∷ left ++ left) ∷ []
  parents (left ∷ right ∷ nodes) = crates.sha256 (1 ∷ left ++ right) ∷ parents nodes

  -- `while nodes.len() > 1`
  unfoldable pub merkle_root : ℕ → List Bytes → Result Bytes
  unfolding parents
  merkle_root fuel [] = ok (crates.sha256 (2 ∷ []))
  merkle_root fuel (node ∷ []) = ok node
  merkle_root zero (left ∷ right ∷ nodes) = err out_of_fuel
  merkle_root (suc fuel) (left ∷ right ∷ nodes) = merkle_root fuel (parents (left ∷ right ∷ nodes))

  -- A level has at most half the nodes of the one below, so there are no more levels than leaves.
  unfoldable pub asset_integrity_root : Map Text Text → Result Text
  unfolding leaves merkle_root
  asset_integrity_root assets = do
    nodes ← leaves assets
    top ← merkle_root (length nodes) nodes
    ok (crates.hex_encode top)

  -- The loop over the assets in `validate`.
  unfoldable pub check_assets : Map Text Text → Result (Unit {0})
  check_assets [] = ok tt
  check_assets ((path, digest) ∷ assets) = do
    normal ← normalize_relative_path path
    reject (not (is_sha256 digest)) bad_asset
    check_assets assets

  unfoldable pub check_root : Integrity → Result (Unit {0})
  unfolding asset_integrity_root
  check_root i = do
    reject (not (is_sha256 i.assets_root_sha256)) bad_root
    actual ← asset_integrity_root i.assets_sha256
    reject (not (eq_ignore_ascii_case actual i.assets_root_sha256)) root_mismatch

  -- The tests of the integrity in `validate`.
  unfoldable pub validate_integrity : Integrity → Result (Unit {0})
  unfolding check_assets check_root
  validate_integrity i = do
    reject (not (is_empty i.component_sha256) && not (is_sha256 i.component_sha256)) bad_component
    check_assets i.assets_sha256
    if is_empty i.assets_root_sha256 then ok tt else check_root i
