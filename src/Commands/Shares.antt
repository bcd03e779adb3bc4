-- ===== src/Commands/Shares.antt =====
-- The volumes of internal/cmd/up.go and internal/cmd/lifecycle.go: which of them virtiofsd serves, by
-- which sockets, and with which environment.
use microbe.Base.{
  ℕ, ◌-◌, leb, Bool, false, ◌&&◌, ◌||◌, ℤ, List, [], ◌∷◌, ◌++◌, Text, codes, text_eq, Map, ◌==◌,
  itoa, if◌then◌else◌,
}
use microbe.Config.Schema.{Volume, Service}

unfoldable pub is_virtiofs_share : Volume → Bool
is_virtiofs_share v = text_eq v.type (codes "share") && text_eq v.protocol (codes "virtiofs")

unfoldable pub any_virtiofs_share : List Volume → Bool
unfolding is_virtiofs_share
any_virtiofs_share [] = false
any_virtiofs_share (v ∷ volumes) = is_virtiofs_share v || any_virtiofs_share volumes

-- `hasVirtiofsShare`
unfoldable pub has_virtiofs_share : Service → Bool
unfolding any_virtiofs_share
has_virtiofs_share s = text_eq s.os (codes "finix") || any_virtiofs_share s.volumes

unfoldable pub share_sockets : Text → List Volume → List Text
unfolding is_virtiofs_share
share_sockets svc [] = []
share_sockets svc (v ∷ volumes) =
    let rest = share_sockets svc volumes in
    if is_virtiofs_share v
    then (svc ++ (codes "-virtiofs-" ++ (v.name ++ codes ".sock"))) ∷ rest
    else rest

-- `virtiofsShareSockets`
unfoldable pub virtiofs_share_sockets : Text → Service → List Text
unfolding share_sockets
virtiofs_share_sockets svc s =
    (if text_eq s.os (codes "finix") then (svc ++ codes "-virtiofs-nix-store.sock") ∷ [] else [])
    ++ share_sockets svc s.volumes

abbrev env_byte : ℕ → ℕ
env_byte c = if c == b'-' then b'_' else if leb 97 c && leb c 122 then c - 32 else c

-- `shareEnvKey`, on ASCII.
unfoldable pub share_env_key : Text → Text
share_env_key [] = []
share_env_key (c ∷ cs) = env_byte c ∷ share_env_key cs

-- `flakegen.ShareOwner`
pub record ShareOwner : Type 0 where
  pub host_uid : ℤ
  pub host_gid : ℤ

unfoldable pub host_env : Map Text → List Text
unfolding share_env_key
host_env [] = []
host_env ((tag, path) ∷ rest) =
    (codes "MICROBE_SHARE_" ++ (share_env_key tag ++ (codes "=" ++ path))) ∷ host_env rest

unfoldable pub owner_env : Map ShareOwner → List Text
unfolding share_env_key
owner_env [] = []
owner_env ((tag, owner) ∷ rest) =
    (codes "MICROBE_HOST_UID_" ++ (share_env_key tag ++ (codes "=" ++ itoa owner.host_uid)))
    ∷ (codes "MICROBE_HOST_GID_" ++ (share_env_key tag ++ (codes "=" ++ itoa owner.host_gid)))
    ∷ owner_env rest

-- `virtiofsdEnv`, behind the environment of the parent.
unfoldable pub virtiofsd_env : List Text → Text → Map Text → Map ShareOwner → List Text
unfolding host_env owner_env
virtiofsd_env environ os hosts owners =
    environ
    ++ (host_env hosts
        ++ (owner_env owners
            ++ (if text_eq os (codes "finix")
                then codes "MICROBE_SHARE_NIX_STORE=/nix/store" ∷ []
                else [])))
