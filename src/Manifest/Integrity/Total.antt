-- ===== src/Manifest/Integrity/Total.antt =====
-- When assets have a root.
use cartridge_runtime.Prelude.{
  ℕ, zero, suc, ◌≤◌, some, List, [], ◌∷◌, ◌++◌, length, All, ◌≡◌, refl, arith,
}
use cartridge_runtime.Prelude.Text.{Text, Bytes, len}
use cartridge_runtime.Prelude.Text
use cartridge_runtime.Prelude.Map.{Map}
use cartridge_runtime.Prelude.Results.{ok}
use cartridge_runtime.Manifest.Types.{Crates}
use cartridge_runtime.Manifest.Integrity.{
  be_bytes, leaves, parents, merkle_root, asset_integrity_root,
}

module _ {V R : Type 0} (crates : Crates V R) where
  -- A digest of 32 bytes.
  abbrev pub Decodes : Text × Text → Type 0
  Decodes asset =
      (digest : Bytes) × (crates.hex_decode asset.1 ≡ some digest) × (length digest ≡ 32)

  length-parents : (nodes : List Bytes) → length (parents crates nodes) ≤ length nodes
  unfolding parents
  length-parents [] = omega arith
  length-parents (left ∷ []) = omega arith
  length-parents (left ∷ right ∷ nodes) = omega (arith, length-parents nodes)

  root_total :
      (fuel : ℕ) (nodes : List Bytes)
      → length nodes ≤ suc fuel
      → (top : Bytes) × (merkle_root crates fuel nodes ≡ ok top)
  unfolding merkle_root parents
  root_total fuel [] l = (_, refl)
  root_total fuel (node ∷ []) l = (_, refl)
  root_total zero (left ∷ right ∷ nodes) l = absurd (omega arith)
  root_total (suc fuel) (left ∷ right ∷ nodes) l =
      root_total fuel (parents crates (left ∷ right ∷ nodes)) (omega (arith, length-parents nodes))

  leaves_total :
      (assets : Map Text Text)
      → All Decodes assets
      → (nodes : List Bytes) × (leaves crates assets ≡ ok nodes)
  unfolding leaves
  leaves_total [] h = (_, refl)
  leaves_total ((path, hex) ∷ assets) ((digest, decoded, long), h) =
      let (nodes, went) = leaves_total assets h in
      (
        crates.sha256 (0 ∷ be_bytes 8 (len path) ++ Text.bytes path ++ digest) ∷ nodes,
        rw (decoded, long, went) refl,
      )

  -- Assets whose digests are all hexadecimal texts of 32 bytes have a root: the levels come to an end.
  pub asset_integrity_root_total :
      (assets : Map Text Text)
      → All Decodes assets
      → (digest : Text) × (asset_integrity_root crates assets ≡ ok digest)
  unfolding asset_integrity_root
  asset_integrity_root_total assets h =
      let (nodes, went) = leaves_total assets h in
      let (top, up) = root_total (length nodes) nodes (omega arith) in
      (crates.hex_encode top, cc (went, up))
