-- ===== src/Provisiond/Taps.antt =====
-- When `EnsureTaps` keeps a tap that it finds: internal/provisiond/netops.go.
use microbe.Base.{
  Text, Result, ok, err, Result-cases, Bool-cases, ◌⊎◌, inl, inr, to_uint32, and_then, continue,
  ◌≡◌, refl, sym, ◌↔◌, Bool, true, false, arith,
}
use microbe.Provisiond.Specs.{TapSpec}
use microbe.Provisiond.Links.{
  Link, bridge, tuntap, other_link, found, LinkError, delete_stale, recreate, Netlink, tap_link,
  tap_needs_recreate, differ, stale, link_call, tap_or_create,
}

agree : (a b : Bool) → (differ a b ≡ false) ↔ (a ≡ b)
agree true true = (λ _. refl, λ _. refl)
agree true false = (λ h. h, λ h. h)
agree false true = (λ h. sym h, λ h. sym h)
agree false false = (λ _. refl, λ _. refl)

-- A link that serves as the tap of the spec: a tap of its owner, its group and its multi-queue flag.
abbrev pub Fits : TapSpec → Link → Type 0
Fits spec (bridge name) = ⊥
Fits spec (other_link name) = ⊥
Fits spec (tuntap tap) =
    (tap.owner ≡ to_uint32 spec.owner)
    × (tap.group ≡ to_uint32 spec.group)
    × (tap.flags.multi_queue ≡ spec.multi_queue)

stale-Fits : (spec : TapSpec) (link : Link) → stale spec link ≡ false → Fits spec link
unfolding stale tap_needs_recreate
stale-Fits spec (bridge name) h = absurd (cc h)
stale-Fits spec (other_link name) h = absurd (cc h)
stale-Fits spec (tuntap tap) h = ground (arith, h, agree tap.flags.multi_queue spec.multi_queue)

Fits-not_stale : (spec : TapSpec) (link : Link) → Fits spec link → stale spec link ≡ false
unfolding stale tap_needs_recreate
Fits-not_stale spec (bridge name) h = absurd h
Fits-not_stale spec (other_link name) h = absurd h
Fits-not_stale spec (tuntap tap) h = ground (arith, h, agree tap.flags.multi_queue spec.multi_queue)

tap_link-Fits : (spec : TapSpec) → Fits spec (tuntap (tap_link spec))
unfolding tap_link
tap_link-Fits spec = ground arith

module _ {Host : Type 0} (netlink : Netlink Host) (sha256 : Text → Text) where
  -- The link was deleted and the tap of the spec added, or the first of the two calls that failed is
  -- reported.
  abbrev pub Replaces : TapSpec → Link → Host → Result LinkError Link × Host → Type 0
  Replaces spec link host r =
      ((e : Text) × (netlink.link_del host link ≡ err e)
        × (r ≡ (err (delete_stale spec.name e), host)))
      ⊎ ((h1 : Host) × (netlink.link_del host link ≡ ok h1)
          × (((e : Text) × (netlink.link_add h1 (tuntap (tap_link spec)) ≡ err e)
                × (r ≡ (err (recreate spec.name e), h1)))
              ⊎ ((h2 : Host) × (netlink.link_add h1 (tuntap (tap_link spec)) ≡ ok h2)
                  × (r ≡ (ok (tuntap (tap_link spec)), h2)))))

  tap_or_create-Replaces :
      (spec : TapSpec) (link : Link) (host : Host)
      → netlink.link_by_name host spec.name ≡ found link
      → stale spec link ≡ true
      → Replaces spec link host (tap_or_create netlink sha256 spec host)
  unfolding tap_or_create link_call and_then continue
  tap_or_create-Replaces spec link host f q = elim (Result-cases (netlink.link_del host link)) [
    | inr (e, d) ↦ rw (f, tap_or_create, q, d, link_call) (inl (e, refl, refl))
    | inl (h1, d) ↦ elim (Result-cases (netlink.link_add h1 (tuntap (tap_link spec)))) [
      | inr (e, a) ↦
          inr (h1, d, inl (e, a, rw (f, tap_or_create, q, d, link_call, continue, a) refl))
      | inl (h2, a) ↦
          inr (h1, d, inr (h2, a, rw (f, tap_or_create, q, d, link_call, continue, a) refl))
    ]
  ]

  -- Where a link stands under a tap's name, EnsureTaps goes on with that link and changes nothing
  -- if it is a tap of the spec's owner, group and multi-queue flag; and else it deletes the link
  -- and adds a tap that has these, or returns the error of the first of the two calls that fails.
  pub tap_or_create-found :
      (spec : TapSpec) (link : Link) (host : Host)
      → netlink.link_by_name host spec.name ≡ found link
      → (Fits spec link × (tap_or_create netlink sha256 spec host ≡ (ok link, host)))
        ⊎ (¬ Fits spec link
            × Fits spec (tuntap (tap_link spec))
            × Replaces spec link host (tap_or_create netlink sha256 spec host))
  unfolding tap_or_create
  tap_or_create-found spec link host f = elim (Bool-cases (stale spec link)) [
    | inr fits ↦ inl (stale-Fits spec link fits, rw (f, tap_or_create, fits) refl)
    | inl q ↦ inr (
      (λ fits. absurd (cc (q, Fits-not_stale spec link fits))),
      tap_link-Fits spec,
      tap_or_create-Replaces spec link host f q,
    )
  ]
