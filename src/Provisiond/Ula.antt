-- ===== src/Provisiond/Ula.antt =====
-- internal/provisiond/prefix.go and internal/state/hoststate.go: the host's prefix, drawn once and
-- kept in a file.
use microbe.Base.{
  ℕ, ◌≡◌, refl, sym, ap, subst, ◌∙◌, false, Bool-cases, ◌⊎◌, inl, inr, Option, none, some,
  Option-cases, List, [], ◌∷◌, ◌++◌, Text, length, replicate, if◌then◌else◌, ◌==◌, Result, ok, err,
  Result-cases, Action, return, and_then, continue, and_then-eq-ok, same_state, ok_inj,
}

-- `state.HostState`
pub record HostState : Type 0 where
  pub ula_prefix : Text

-- What `os.ReadFile` answers.
pub data FileRead : Type 0 where
  absent : FileRead
  unreadable : Text → FileRead
  contents : Text → FileRead

FileRead-cases :
    (r : FileRead)
    → (r ≡ absent) ⊎ (((e : Text) × (r ≡ unreadable e)) ⊎ ((bytes : Text) × (r ≡ contents bytes)))
FileRead-cases absent = inl refl
FileRead-cases (unreadable e) = inr (inl (e, refl))
FileRead-cases (contents bytes) = inr (inr (bytes, refl))

-- The steps of `HostState.Save` in front of the rename.
pub data SaveStep : Type 0 where
  make_dir : SaveStep
  create_temp : SaveStep
  write_temp : SaveStep
  sync_temp : SaveStep
  close_temp : SaveStep

-- The file system, `encoding/json` and `crypto/rand`, as the code uses them.
pub record HostFiles (World : Type 0) : Type 0 where
  pub read_file : World → FileRead
  pub step_error : World → SaveStep → Option Text
  pub rename : World → Text → Result Text World  -- the temporary file of these bytes replaces the file
  pub marshal : HostState → Text
  pub unmarshal : Text → Option HostState
  pub rand : World → ℕ → Option (List ℕ)
  pub print_prefix : List ℕ → ℕ → Text

pub data UlaError : Type 0 where
  load_failed : Text → UlaError
  generate_failed : UlaError
  save_failed : Text → UlaError

module _ {World : Type 0} (files : HostFiles World) where
  -- `LoadHostState`
  unfoldable pub load_host_state : Action World UlaError HostState
  load_host_state world = elim (files.read_file world) [
    | absent ↦ (ok (record { ula_prefix = [] }), world)
    | unreadable e ↦ (err (load_failed e), world)
    | contents data' ↦ elim (files.unmarshal data') [
      | none ↦ (err (load_failed data'), world)
      | some s ↦ (ok s, world)
    ]
  ]

  unfoldable pub save_step : SaveStep → Action World UlaError (Unit {0})
  save_step step world = elim (files.step_error world step) [
    | none ↦ (ok tt, world)
    | some e ↦ (err (save_failed e), world)
  ]

  unfoldable pub rename_into_place : Text → Action World UlaError (Unit {0})
  rename_into_place bytes world = elim (files.rename world bytes) [
    | ok world' ↦ (ok tt, world')
    | err e ↦ (err (save_failed e), world)
  ]

  -- `HostState.Save`
  unfoldable pub save : HostState → Action World UlaError (Unit {0})
  save s = and_then (save_step make_dir) λ _. and_then (save_step create_temp) λ _.
      and_then (save_step write_temp) λ _.
        and_then (save_step sync_temp)
          λ _. and_then (save_step close_temp) λ _. rename_into_place (files.marshal s)

  -- `generateULAPrefix`: fd, five random bytes and ten zero bytes.
  unfoldable pub generate_ula_prefix : Action World UlaError Text
  generate_ula_prefix world = elim (files.rand world 5) [
    | none ↦ (err generate_failed, world)
    | some bytes ↦ (ok (files.print_prefix (253 ∷ (bytes ++ replicate 10 0)) 64), world)
  ]

  unfoldable pub generate_and_save : HostState → Action World UlaError Text
  generate_and_save hs =
      and_then generate_ula_prefix
        λ prefix. and_then (save (record hs { ula_prefix = prefix })) λ _. return prefix

  -- `EnsurePrefix`
  unfoldable pub ensure_prefix : Action World UlaError Text
  ensure_prefix =
      and_then load_host_state
        λ hs. if length hs.ula_prefix == 0 then generate_and_save hs else return hs.ula_prefix

  -- What is relied on: the file holds what was renamed into place, JSON reads back what it wrote, and
  -- a prefix has a text that is not empty.
  pub record HostFilesLaws : Type 0 where
    pub read-rename :
        (w w' : World) (bytes : Text)
        → files.rename w bytes ≡ ok w'
        → files.read_file w' ≡ contents bytes
    pub unmarshal-marshal : (s : HostState) → files.unmarshal (files.marshal s) ≡ some s
    pub prefix_not_empty :
        (bytes : List ℕ) (bits : ℕ) → (length (files.print_prefix bytes bits) == 0) ≡ false

  module _ (laws : HostFilesLaws) where
    -- The file holds this prefix.
    Stored : Text → World → Type 0
    Stored prefix w =
        (length prefix == 0 ≡ false)
        × (load_host_state w ≡ (ok (record { ula_prefix = prefix }), w))

    same_value :
        {A : Type 0} {a b : A} {s t : World}
        → ◌≡◌ {A = Result UlaError A × World} (ok a, s) (ok b, t)
        → a ≡ b
    same_value e = ok_inj (ap (λ x. x.0) e)

    Stored-here :
        (hs : HostState) (w : World)
        → (length hs.ula_prefix == 0) ≡ false
        → load_host_state w ≡ (ok hs, w)
        → Stored hs.ula_prefix w
    unfolding Stored
    Stored-here hs w n e = (n, e)

    Stored-ensures :
        (prefix : Text) (w : World) → Stored prefix w → ensure_prefix w ≡ (ok prefix, w)
    unfolding ensure_prefix and_then continue Stored
    Stored-ensures prefix w (n, e) = rw e (rw n refl)

    renamed :
        (bytes : Text) (w w' : World) (a : Unit {0})
        → rename_into_place bytes w ≡ (ok a, w')
        → files.read_file w' ≡ contents bytes
    unfolding rename_into_place
    renamed bytes w w' a q = elim (Result-cases (files.rename w bytes)) [
      | inl (v, e) ↦
          subst (λ x. files.read_file x ≡ contents bytes)
            (same_state (rw (e, rename_into_place) at q)) (laws.read-rename w v bytes e)
      | inr (x, e) ↦ absurd (cc (rw (e, rename_into_place) at q))
    ]

    saved :
        (prefix : Text) (w w' : World) (a : Unit {0})
        → (length prefix == 0 ≡ false)
        → save (record { ula_prefix = prefix }) w ≡ (ok a, w')
        → Stored prefix w'
    unfolding save Stored load_host_state
    saved prefix w w' a n q =
        let (a1, w1, e1, f1) = and_then-eq-ok (save_step make_dir) _ w q in
        let (a2, w2, e2, f2) = and_then-eq-ok (save_step create_temp) _ w1 f1 in
        let (a3, w3, e3, f3) = and_then-eq-ok (save_step write_temp) _ w2 f2 in
        let (a4, w4, e4, f4) = and_then-eq-ok (save_step sync_temp) _ w3 f3 in
        let (a5, w5, e5, f5) = and_then-eq-ok (save_step close_temp) _ w4 f4 in
        (
          n,
          rw (renamed _ w5 w' a f5, load_host_state)
              (rw (laws.unmarshal-marshal (record { ula_prefix = prefix })) refl),
        )

    generated :
        (prefix : Text) (w u : World)
        → generate_ula_prefix w ≡ (ok prefix, u)
        → length prefix == 0 ≡ false
    unfolding generate_ula_prefix
    generated prefix w u q = elim (Option-cases (files.rand w 5)) [
      | inl e ↦ absurd (cc (rw (e, generate_ula_prefix) at q))
      | inr (bytes, e) ↦
          subst (λ x. (length x == 0) ≡ false) (same_value (rw (e, generate_ula_prefix) at q))
            (laws.prefix_not_empty _ 64)
    ]

    loaded : (w u : World) (hs : HostState) → load_host_state w ≡ (ok hs, u) → w ≡ u
    unfolding load_host_state
    loaded w u hs q = elim (FileRead-cases (files.read_file w)) [
      | inl e ↦ same_state (rw (e, load_host_state) at q)
      | inr (inl (x, e)) ↦ absurd (cc (rw (e, load_host_state) at q))
      | inr (inr (bytes, e)) ↦ elim (Option-cases (files.unmarshal bytes)) [
        | inl f ↦ absurd (cc (rw f at (rw (e, load_host_state) at q)))
        | inr (s, f) ↦ same_state (rw f at (rw (e, load_host_state) at q))
      ]
    ]

    -- Where the file keeps what was renamed into place, JSON reads back what it wrote and no
    -- prefix prints as nothing: once a call of EnsurePrefix has returned a prefix, the next call
    -- returns the same one and changes nothing, whatever randomness it would find.
    pub ensure_prefix_permanent :
        (prefix : Text) (w w' : World)
        → ensure_prefix w ≡ (ok prefix, w')
        → ensure_prefix w' ≡ (ok prefix, w')
    unfolding ensure_prefix generate_and_save
    ensure_prefix_permanent prefix w w' q =
        let (hs, u, e1, f1) = and_then-eq-ok load_host_state _ w q in
        elim (Bool-cases (length hs.ula_prefix == 0)) [
          | inl y ↦
              let (p, v, e2, f2) = and_then-eq-ok generate_ula_prefix _ u (rw y at f1) in
              let (a, x, e3, f3) = and_then-eq-ok (save (record { ula_prefix = p })) _ v f2 in
              Stored-ensures prefix w' (
                subst (λ t. Stored prefix t) (same_state f3)
                  (subst (λ t. Stored t x) (same_value f3) (saved p v x a (generated p u v e2) e3)))
          | inr n ↦ Stored-ensures prefix w' (
              subst (λ t. Stored prefix t) (loaded w u hs e1 ∙ same_state (rw n at f1))
                (subst (λ t. Stored t w) (same_value (rw n at f1))
                  (Stored-here hs w n (e1 ∙ ap (λ t. (ok hs, t)) (sym (loaded w u hs e1))))))
        ]
