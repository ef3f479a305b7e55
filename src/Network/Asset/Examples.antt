-- ===== src/Network/Asset/Examples.antt =====
-- An asset of three bytes.
use cartridge_runtime.Prelude.{◌≡◌, [], ◌∷◌, arith}
use cartridge_runtime.Prelude.Results.{ok, ◌>>=◌}
use cartridge_runtime.Network.Asset.{split_asset, assemble_asset}
use cartridge_runtime.Network.Asset.RoundTrip.{assemble_asset-split_asset}

-- The digest is the bytes themselves.
assemble_asset-split_asset_example :
    (split_asset (λ bytes. bytes) (1 ∷ 2 ∷ 3 ∷ []) >>= assemble_asset (λ bytes. bytes))
    ≡ ok (1 ∷ 2 ∷ 3 ∷ [])
assemble_asset-split_asset_example =
    assemble_asset-split_asset (λ bytes. bytes) (1 ∷ 2 ∷ 3 ∷ []) (omega arith)
