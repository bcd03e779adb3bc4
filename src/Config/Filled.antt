-- ===== src/Config/Filled.antt =====
-- What `applyDefaults` of internal/config/load.go makes of a document, field by field.
use microbe.Base.{
  ◌≡◌, ◌≢◌, refl, sym, ◌∙◌, true, false, Bool-cases, ◌⊎◌, inl, inr, ℤ, pos, Option, none, some,
  List, [], ◌∷◌, map, Text, codes, text_eq, text_eq_iff, Map, arith,
}
use microbe.Config.Schema.{Volume, Healthcheck, Service, Compose}
use microbe.Config.Defaults.{
  default_text, default_int, default_volume_type, default_volume_fields, default_volume,
  default_healthcheck, default_service, default_services, apply_defaults, apply_defaults_idem,
}

-- A text that is stated stays, and one that is not becomes the default.
abbrev pub TextFilled : Text → Text → Text → Type 0
TextFilled d a b = ((a ≡ []) × (b ≡ d)) ⊎ ((a ≢ []) × (b ≡ a))

abbrev pub NumberFilled : ℤ → ℤ → ℤ → Type 0
NumberFilled d a b = ((a ≡ pos 0) × (b ≡ d)) ⊎ ((a ≢ pos 0) × (b ≡ a))

-- The type of a volume, and then the fields that belong to its type; all else is as it was.
pub record VolumeFilled (v w : Volume) : Type 0 where
  type : TextFilled (codes "share") v.type w.type
  share :
      w.type ≡ codes "share"
      → TextFilled (codes "rw") v.mode w.mode
        × TextFilled (codes "virtiofs") v.protocol w.protocol
        × (w.fs_type ≡ v.fs_type)
  disk :
      w.type ≡ codes "disk"
      → (w.mode ≡ v.mode)
        × (w.protocol ≡ v.protocol)
        × TextFilled (codes "ext4") v.fs_type w.fs_type
  other :
      w.type ≢ codes "share"
      → w.type ≢ codes "disk"
      → (w.mode ≡ v.mode) × (w.protocol ≡ v.protocol) × (w.fs_type ≡ v.fs_type)
  rest :
      (w.name ≡ v.name)
      × (w.target ≡ v.target)
      × (w.size ≡ v.size)
      × (w.host ≡ v.host)
      × (w.owner ≡ v.owner)

abbrev pub VolumesFilled : List Volume → List Volume → Type 0
VolumesFilled [] [] = Unit
VolumesFilled (v ∷ vs) (w ∷ ws) = VolumeFilled v w × VolumesFilled vs ws
VolumesFilled _ _ = ⊥

abbrev pub HealthcheckFilled : Option Healthcheck → Option Healthcheck → Type 0
HealthcheckFilled none none = Unit
HealthcheckFilled (some a) (some b) =
    TextFilled (codes "5s") a.interval b.interval
    × TextFilled (codes "2s") a.timeout b.timeout
    × TextFilled (codes "10s") a.start_period b.start_period
    × (b.port ≡ a.port)
HealthcheckFilled _ _ = ⊥

pub record ServiceFilled (s t : Service) : Type 0 where
  vcpus : NumberFilled (pos 1) s.vcpus t.vcpus
  mem : NumberFilled (pos 512) s.mem t.mem
  hypervisor : TextFilled (codes "cloud-hypervisor") s.hypervisor t.hypervisor
  os : TextFilled (codes "nixos") s.os t.os
  volumes : VolumesFilled s.volumes t.volumes
  healthcheck : HealthcheckFilled s.healthcheck t.healthcheck
  rest :
      (t.config_present ≡ s.config_present)
      × (t.networks ≡ s.networks)
      × (t.ports ≡ s.ports)
      × (t.depends_on ≡ s.depends_on)

abbrev pub ServicesFilled : Map Service → Map Service → Type 0
ServicesFilled [] [] = Unit
ServicesFilled ((n, s) ∷ ss) ((m, t) ∷ ts) = (m ≡ n) × ServiceFilled s t × ServicesFilled ss ts
ServicesFilled _ _ = ⊥

pub record Filled (c d : Compose) : Type 0 where
  schema_version : NumberFilled (pos 1) c.schema_version d.schema_version
  services : ServicesFilled c.services d.services
  rest : (d.name ≡ c.name) × (d.networks ≡ c.networks) × (d.rules ≡ c.rules)

text_filled : (d a : Text) → TextFilled d a (default_text a d)
unfolding default_text
text_filled d [] = inl (refl, refl)
text_filled d (c ∷ cs) = inr ((λ h. absurd (cc h)), refl)

number_filled : (d n : ℤ) → NumberFilled d n (default_int n d)
unfolding default_int
number_filled d n = ground arith

share_is_no_disk : codes "share" ≢ codes "disk"
share_is_no_disk h = absurd (cc h)

same_text : (s t : Text) → text_eq s t ≡ true → s ≡ t
same_text s t h = (text_eq_iff s t).0 h

other_text : (s t : Text) → text_eq s t ≡ false → s ≢ t
other_text s t h e = ground (arith, h, text_eq_iff s t, e)

fields_filled :
    (v : Volume) (t : Text)
    → TextFilled (codes "share") v.type t
    → VolumeFilled v (default_volume_fields (record v { type = t }))
unfolding default_volume_fields
fields_filled v t h = elim (Bool-cases (text_eq t (codes "share"))) [
  | inl y ↦
      rw (y, default_volume_fields)
        (record {
          type = h;
          share = λ _.
              (text_filled (codes "rw") v.mode, text_filled (codes "virtiofs") v.protocol, refl);
          disk = λ e. absurd (share_is_no_disk (sym (same_text t (codes "share") y) ∙ e));
          other = λ n _. absurd (n (same_text t (codes "share") y));
          rest = (refl, refl, refl, refl, refl);
        })
  | inr n ↦
      rw (n, default_volume_fields)
        (elim (Bool-cases (text_eq t (codes "disk"))) [
          | inl y ↦ rw y (record {
            type = h;
            share = λ e. absurd (other_text t (codes "share") n e);
            disk = λ _. (refl, refl, text_filled (codes "ext4") v.fs_type);
            other = λ _ m. absurd (m (same_text t (codes "disk") y));
            rest = (refl, refl, refl, refl, refl);
          })
          | inr m ↦ rw m (record {
            type = h;
            share = λ e. absurd (other_text t (codes "share") n e);
            disk = λ e. absurd (other_text t (codes "disk") m e);
            other = λ _ _. (refl, refl, refl);
            rest = (refl, refl, refl, refl, refl);
          })
        ])
]

volume_filled : (v : Volume) → VolumeFilled v (default_volume v)
unfolding default_volume default_volume_type
volume_filled v =
    fields_filled v (default_text v.type (codes "share")) (text_filled (codes "share") v.type)

volumes_filled : (vs : List Volume) → VolumesFilled vs (map default_volume vs)
volumes_filled [] = tt
volumes_filled (v ∷ vs) = (volume_filled v, volumes_filled vs)

healthcheck_filled : (h : Option Healthcheck) → HealthcheckFilled h (default_healthcheck h)
unfolding default_healthcheck
healthcheck_filled none = tt
healthcheck_filled (some h) = (
  text_filled (codes "5s") h.interval,
  text_filled (codes "2s") h.timeout,
  text_filled (codes "10s") h.start_period,
  refl,
)

service_filled : (s : Service) → ServiceFilled s (default_service s)
unfolding default_service
service_filled s = record {
  vcpus = number_filled (pos 1) s.vcpus;
  mem = number_filled (pos 512) s.mem;
  hypervisor = text_filled (codes "cloud-hypervisor") s.hypervisor;
  os = text_filled (codes "nixos") s.os;
  volumes = volumes_filled s.volumes;
  healthcheck = healthcheck_filled s.healthcheck;
  rest = (refl, refl, refl, refl);
}

services_filled : (m : Map Service) → ServicesFilled m (default_services m)
unfolding default_services
services_filled [] = tt
services_filled ((n, s) ∷ rest) = (refl, service_filled s, services_filled rest)

-- applyDefaults keeps every field that the document states and gives every other its default, a
-- volume's by the type that it has then, leaves all else as it was, and changes nothing when it is
-- run again.
pub apply_defaults-Filled :
    (c : Compose)
    → Filled c (apply_defaults c) × (apply_defaults (apply_defaults c) ≡ apply_defaults c)
unfolding apply_defaults
apply_defaults-Filled c = (
  record {
    schema_version = number_filled (pos 1) c.schema_version;
    services = services_filled c.services;
    rest = (refl, refl, refl);
  },
  apply_defaults_idem c,
)
