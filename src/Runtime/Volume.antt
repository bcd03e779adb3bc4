-- ===== src/Runtime/Volume.antt =====
-- `ParseVolumeSize` and `EnsureVolume` of internal/runtime/runner.go.
use microbe.Base.{
  sym, ap, ok_inj, same_state, and_then-eq-ok, Bool-cases, ◌⊎◌, inl, inr, ℕ, ◌≡◌, Bool, true, false,
  ◌||◌, ℤ, pos, Option, none, some, List, [], ◌∷◌, ◌++◌, Text, codes, ◌==◌, trim_space, itoa,
  Result, ok, err, if◌then◌else◌, Action, return, fail, and_then,
}

-- What the size takes from Go's floats: `strconv.ParseFloat`, `f <= 0`, and `int(math.Ceil(f * mult))`.
pub record Floats (F : Type 0) : Type 0 where
  pub parse_float : Text → Option F
  pub not_positive : F → Bool
  pub ceil_times : ℕ → F → ℤ

pub data VolumeError : Type 0 where
  invalid_size : Text → VolumeError
  outside : Text → VolumeError

abbrev pub default_volume_mib : ℤ
default_volume_mib = pos 1024

-- The text without its last byte, and that byte, of a text that is not empty.
unfoldable pub unsnoc : ℕ → Text → Text × ℕ
unsnoc c [] = ([], c)
unsnoc c (d ∷ ds) = let (front, last) = unsnoc d ds in (c ∷ front, last)

-- The suffix: the multiplier, and the text without it.
unfoldable pub size_suffix : ℕ → Text → ℕ × Text
unfolding unsnoc
size_suffix c cs =
    let (front, last) = unsnoc c cs in
    if last == b'G' || last == b'g'
    then (1024, front)
    else if last == b'M' || last == b'm'
    then (1, front)
    else (1, c ∷ cs)

module _ {F : Type 0} (floats : Floats F) where
  abbrev checked_size : Text → ℕ → Option F → Result VolumeError ℤ
  checked_size size mult none = err (invalid_size size)
  checked_size size mult (some f) =
      if floats.not_positive f then err (invalid_size size) else ok (floats.ceil_times mult f)

  unfoldable pub trimmed_size : Text → Text → Result VolumeError ℤ
  unfolding size_suffix
  trimmed_size size [] = ok default_volume_mib
  trimmed_size size (c ∷ cs) =
      let (mult, number) = size_suffix c cs in checked_size size mult (floats.parse_float number)

  -- `ParseVolumeSize`
  unfoldable pub parse_volume_size : Text → Result VolumeError ℤ
  unfolding trimmed_size
  parse_volume_size size = trimmed_size size (trim_space size)

-- The file system and the commands, of which `EnsureVolume` needs these.
pub record Disk (S : Type 0) : Type 0 where
  pub exists : S → Text → Bool
  pub mkdir_all : Text → S → Option Text × S
  pub run : List Text → S → Option Text × S
  pub join : Text → Text → Text
  pub parent : Text → Text

module _ {S : Type 0} where
  unfoldable pub lift : Option Text × S → Result VolumeError (Unit {0}) × S
  lift (none, s) = (ok tt, s)
  lift (some e, s) = (err (outside e), s)

  unfoldable pub of_result : {A : Type 0} → Result VolumeError A → Action S VolumeError A
  of_result (ok a) = return a
  of_result (err e) = fail e

  module _ {F : Type 0} (floats : Floats F) (disk : Disk S) where
    -- `VolumeImagePath`
    unfoldable pub image_path : Text → Text → Text
    image_path base name = disk.join (disk.join base (codes "volumes")) (name ++ codes ".qcow2")

    -- `qemu-img create -f raw -o size=<n>M <path>`
    unfoldable pub create_image : ℤ → Text → Action S VolumeError (Unit {0})
    unfolding lift
    create_image mib path s = lift (
        disk.run
          (codes "qemu-img"
            ∷ codes "create"
            ∷ codes "-f"
            ∷ codes "raw"
            ∷ codes "-o"
            ∷ (codes "size=" ++ (itoa mib ++ codes "M"))
            ∷ path
            ∷ [])
          s)

    -- `mkfs.<fs_type> <path>`
    unfoldable pub format_image : Text → Text → Action S VolumeError (Unit {0})
    unfolding lift
    format_image fs_type path s = lift (disk.run ((codes "mkfs." ++ fs_type) ∷ path ∷ []) s)

    unfoldable pub make_volume : Text → Text → Text → Action S VolumeError Text
    unfolding create_image format_image parse_volume_size of_result lift
    make_volume path size fs_type = and_then (of_result (parse_volume_size floats size)) λ mib.
        and_then (λ s. lift (disk.mkdir_all (disk.parent path) s))
          λ _.
            and_then (create_image mib path)
              λ _. and_then (format_image fs_type path) λ _. return path

    -- `EnsureVolume`
    unfoldable pub ensure_volume : Text → Text → Text → Text → Action S VolumeError Text
    unfolding make_volume image_path
    ensure_volume base name size fs_type s =
        if disk.exists s (image_path base name)
        then (ok (image_path base name), s)
        else make_volume (image_path base name) size fs_type s

    lift_inv : (p : Option Text × S) (a : Unit {0}) (t : S) → lift p ≡ (ok a, t) → p ≡ (none, t)
    unfolding lift
    lift_inv (none, s) a t e = ap (λ s'. (none, s')) (same_state e)
    lift_inv (some x, s) a t e = absurd (cc e)

    of_result_inv :
        {A : Type 0} (r : Result VolumeError A) (a : A) (s t : S)
        → of_result r s ≡ (ok a, t)
        → (r ≡ ok a) × (s ≡ t)
    unfolding of_result
    of_result_inv (ok b) a s t e = (ap (λ x. x.0) e, same_state e)
    of_result_inv (err x) a s t e = absurd (cc e)

    -- The image was made: its directory, the image at the size that was parsed, and the file system on
    -- it, in this order and each without an error.
    abbrev pub IsMade : Text → Text → Text → S → S → Type 0
    IsMade path size fs_type s t =
        (mib : ℤ) × (s1 : S) × (s2 : S) × (parse_volume_size floats size ≡ ok mib)
        × (disk.mkdir_all (disk.parent path) s ≡ (none, s1))
        × (disk.run
              (codes "qemu-img"
                ∷ codes "create"
                ∷ codes "-f"
                ∷ codes "raw"
                ∷ codes "-o"
                ∷ (codes "size=" ++ (itoa mib ++ codes "M"))
                ∷ path
                ∷ [])
              s1
            ≡ (none, s2))
        × (disk.run ((codes "mkfs." ++ fs_type) ∷ path ∷ []) s2 ≡ (none, t))

    make_volume_inv :
        (path size fs_type path' : Text) (s t : S)
        → make_volume path size fs_type s ≡ (ok path', t)
        → (path' ≡ path) × IsMade path size fs_type s t
    unfolding make_volume create_image format_image
    make_volume_inv path size fs_type path' s t e =
        let (mib, s0, e1, f1) = and_then-eq-ok (of_result (parse_volume_size floats size)) _ s e in
        let (parsed, same) = of_result_inv (parse_volume_size floats size) mib s s0 e1 in
        let (a, s1, e2, f2) =
          and_then-eq-ok (λ u. lift (disk.mkdir_all (disk.parent path) u)) _ s0 f1 in
        let (b, s2, e3, f3) = and_then-eq-ok (create_image mib path) _ s1 f2 in
        let (c, s3, e4, f4) = and_then-eq-ok (format_image fs_type path) _ s2 f3 in
        (
          sym (ok_inj (ap (λ x. x.0) f4)),
          (
            mib,
            s1,
            s2,
            parsed,
            rw (sym same) at (lift_inv (disk.mkdir_all (disk.parent path) s0) a s1 e2),
            lift_inv _ b s2 e3,
            rw (same_state f4) at (lift_inv _ c s3 e4),
          ),
        )

    -- EnsureVolume returns no other path than that of the volume's image, and it only where the
    -- image was there and nothing was run, or where it was not there and the size was parsed, the
    -- directory and the image of that size made and the file system put on it, in this order and
    -- each without an error.
    pub ensure_volume_inv :
        (base name size fs_type path : Text) (s t : S)
        → ensure_volume base name size fs_type s ≡ (ok path, t)
        → (path ≡ image_path base name)
          × (((disk.exists s path ≡ true) × (t ≡ s))
              ⊎ ((disk.exists s path ≡ false) × IsMade path size fs_type s t))
    unfolding ensure_volume
    ensure_volume_inv base name size fs_type path s t e =
        elim (Bool-cases (disk.exists s (image_path base name))) [
          | inl there ↦
              let same : image_path base name ≡ path = ok_inj (ap (λ x. x.0) (rw there at e)) in
              (sym same, inl (rw same at there, sym (same_state (rw there at e))))
          | inr absent ↦
              let (same, made) =
                make_volume_inv (image_path base name) size fs_type path s t (rw absent at e) in
              (same, inr (rw (sym same) at absent, rw (sym same) at made))
        ]
