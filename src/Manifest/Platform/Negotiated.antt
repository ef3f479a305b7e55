-- ===== src/Manifest/Platform/Negotiated.antt =====
-- What the loop of `negotiate_platform` comes to.
use cartridge_runtime.Prelude.{
  Bool, true, false, Option, none, some, [], ◌∷◌, if◌then◌else◌, All, ◌≡◌, refl, sym, subst, inl,
  inr, Bool-cases, arith,
}
use cartridge_runtime.Prelude.Text.{Text, text_ord}
use cartridge_runtime.Prelude.Text
use cartridge_runtime.Prelude.Map.{
  Map, IsSorted, Above, get-insert, get-Above, same_key, same_key-eq, same_key_refl,
}
use cartridge_runtime.Prelude.Map
use cartridge_runtime.Prelude.Results.{
  ok, ok_or, >>=-eq-ok, >>-eq-ok, reject-ok, ok_or-ok, ok_injective,
}
use cartridge_runtime.Manifest.Types.{Crates, Permissions, not_implemented, expectation}
use cartridge_runtime.Manifest.Platform.{
  permission_map, is_set, host_capabilities, satisfies, negotiate,
}

get-All {ℓ} :
    {V : Type ℓ} (v : V) (k : Text) (m : Map Text V) (w : V)
    → All (λ e. e.1 ≡ v) m
    → Map.get k m ≡ some w
    → w ≡ v
unfolding Map.get
get-All v k [] w h got = cc
get-All v k ((j, u) ∷ m) w h got = ground (arith, get-All v k m w h.1, h.0)

IsSorted-tail {ℓ} :
    {V : Type ℓ} (j : Text) (v : V) (m : Map Text V) → IsSorted ((j, v) ∷ m) → IsSorted m
IsSorted-tail j v [] s = tt
IsSorted-tail j v ((i, w) ∷ m) s = s.1

-- The entries of permissions are in the order of their keys.
pub permission_map-IsSorted : (p : Permissions) → IsSorted (permission_map p)
unfolding Text.text_cmp
permission_map-IsSorted p = (refl, (refl, (refl, (refl, (refl, (refl, (refl, (refl, tt))))))))

-- The first entry sets its own name, and the others their names.
is_set-cons :
    (k name : Text) (b : Bool) (m : Map Text Bool)
    → IsSorted ((name, b) ∷ m)
    → is_set k ((name, b) ∷ m) ≡ (if same_key k name then b else is_set k m)
unfolding Map.get
is_set-cons k name b m s = ground arith

is_set-Above :
    (k name : Text) (m : Map Text Bool) → Above name m → same_key k name ≡ true → is_set k m ≡ false
is_set-Above k name m a same =
    let e : k ≡ name = same_key-eq k name same in
    cc (subst (λ j. Map.get j m ≡ none) (sym e) (get-Above name m a))

off :
    (k name : Text) (m : Map Text Bool)
    → IsSorted ((name, false) ∷ m)
    → is_set k m ≡ is_set k ((name, false) ∷ m)
off k name m s = elim (Bool-cases (same_key k name)) [
  | inl same ↦ cc (is_set-cons k name false m s, same, is_set-Above k name m s same)
  | inr other ↦ cc (is_set-cons k name false m s, other)
]

module _ {V R : Type 0} (crates : Crates V R) where
  -- What a capability's requirement asks of the host is so.
  abbrev pub IsSatisfied : Option Text → V → Type 0
  IsSatisfied none version = Unit
  IsSatisfied (some text) version =
      (r : R) × (crates.parse_requirement text ≡ some r) × (crates.matches_version r version ≡ true)

  pub satisfies-IsSatisfied :
      (o : Option Text) (version : V) → satisfies crates o version ≡ ok tt → IsSatisfied o version
  unfolding satisfies
  satisfies-IsSatisfied none version h = tt
  satisfies-IsSatisfied (some text) version h =
      let (r, parsed, rest) = >>=-eq-ok (ok_or (crates.parse_requirement text) expectation) _ h in
      (r, ok_or-ok _ _ parsed, ground (arith, reject-ok _ _ rest))

  host-new :
      (k : Text) (v : V)
      → Map.get k (host_capabilities crates) ≡ some v
      → v ≡ crates.new_version 1 0 0
  unfolding host_capabilities
  host-new k v got =
      get-All (crates.new_version 1 0 0) k (host_capabilities crates) v
        ((refl, (refl, (refl, (refl, (refl, (refl, (refl, (refl, (refl, tt)))))))))) got

  -- A capability is negotiated, at the version of the host, if it is asked for, and then its
  -- requirement is met.
  abbrev pub IsNegotiated : Map Text Text → Map Text Text → Text → Bool → Type 0
  IsNegotiated requirements out k asked =
      (Map.get k out ≡ (if asked then some (crates.to_string (crates.new_version 1 0 0)) else none))
      × IsSatisfied (if asked then Map.get k requirements else none) (crates.new_version 1 0 0)

  pub negotiate-IsNegotiated :
      (requirements : Map Text Text) (ps : Map Text Bool) (out : Map Text Text) (k : Text)
      → IsSorted ps
      → negotiate crates requirements ps ≡ ok out
      → IsNegotiated requirements out k (is_set k ps)
  unfolding negotiate Map.get
  negotiate-IsNegotiated requirements [] out k s h = (cc (h), tt)
  negotiate-IsNegotiated requirements ((name, false) ∷ ps) out k s h =
      let rest = negotiate-IsNegotiated requirements ps out k (IsSorted-tail name false ps s) h in
      subst (IsNegotiated requirements out k) (off k name ps s) rest
  negotiate-IsNegotiated requirements ((name, true) ∷ ps) out k s h =
      let (version, got, h1) =
        >>=-eq-ok (ok_or (Map.get name (host_capabilities crates)) not_implemented) _ h in
      let (met, h2) = >>-eq-ok (satisfies crates (Map.get name requirements) version) _ h1 in
      let (below, went, h3) = >>=-eq-ok (negotiate crates requirements ps) _ h2 in
      let rest =
        negotiate-IsNegotiated requirements ps below k (IsSorted-tail name true ps s) went in
      let fresh = host-new name version (ok_or-ok _ _ got) in
      let put : Map.insert name (crates.to_string version) below ≡ out =
        ok_injective _ out _ refl h3 in
      let at = get-insert name k (crates.to_string version) below in
      elim (Bool-cases (same_key k name)) [
        | inl same ↦
            let e : k ≡ name = same_key-eq k name same in
            let asked : is_set k ((name, true) ∷ ps) ≡ true =
              cc (is_set-cons k name true ps s, same) in
            subst (IsNegotiated requirements out k) (sym asked) (
              cc (at, put, same, fresh),
              subst (λ j. IsSatisfied (Map.get j requirements) (crates.new_version 1 0 0)) (sym e)
                  (subst (IsSatisfied (Map.get name requirements)) fresh
                    (satisfies-IsSatisfied _ version met)),
            )
        | inr other ↦
            subst (IsNegotiated requirements out k) (sym (cc (is_set-cons k name true ps s, other)))
              (cc (at, put, other, rest.0), rest.1)
      ]

  pub negotiate_all :
      (requirements : Map Text Text) (p : Permissions) (out : Map Text Text)
      → negotiate crates requirements (permission_map p) ≡ ok out
      → (k : Text) → IsNegotiated requirements out k (is_set k (permission_map p))
  negotiate_all requirements p out h k =
      negotiate-IsNegotiated requirements (permission_map p) out k (permission_map-IsSorted p) h
