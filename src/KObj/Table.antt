-- ===== src/KObj/Table.antt =====
-- The handles of a task as a map from handles to objects with an access.
use k_os.Prelude.{
  ℕ, zero, suc, ◌<◌, bit_and, ◌≡◌, refl, sym, ap, ◌≢◌, ◌⊎◌, inl, inr, true, false, none, some, List,
  [], ◌∷◌, ◌++◌, arith, ◌==◌, if◌then◌else◌, lt→leb, ne→==, Bool-cases, length, get_or, set,
  get_or-set_self, get_or-set_ne, All,
}
use k_os.Prelude.Ints.{pos, negsuc}
use k_os.KObj.{Namespace, close, kobj_unref}
use native.Mathlib.Decide.{ℕ_discrete}
use k_os.KObj.Handles.{
  KObjHandle, no_handle, handle_get, install_loop, handle_install, handle_close, closes,
}

-- The slot that is taken is the first that is not valid.
record Taken (t : List KObjHandle) (new : KObjHandle) (i : ℕ) (u : List KObjHandle) : Type 0 where
  below : i < length t
  free : (get_or t i no_handle).valid ≡ false
  first : (j : ℕ) → j < i → (get_or t j no_handle).valid ≡ true
  table : u ≡ set t i new

install_loop_lem :
    (t : List KObjHandle) (new : KObjHandle)
    → ((install_loop t new ≡ none) × All (λ h. h.valid ≡ true) t)
      ⊎ ((i : ℕ) × (u : List KObjHandle) × (install_loop t new ≡ some (i, u)) × Taken t new i u)
unfolding install_loop
install_loop_lem [] new = inl (refl, tt)
install_loop_lem (h ∷ hs) new = elim (Bool-cases h.valid) [
  | inr n ↦ inr (
    0,
    new ∷ hs,
    simp n refl,
    record { below = omega arith; free = n; first = λ j lt. absurd (omega arith); table = refl },
  )
  | inl y ↦ elim (install_loop_lem hs new) [
    | inl (full, all) ↦ inl (simp (y, full) refl, (y, all))
    | inr (i, u, found, v) ↦ inr (
      suc i,
      h ∷ u,
      simp (y, found) refl,
      record {
        below = let lt = v.below in omega arith;
        free = v.free;
        first = before h hs i y v.first;
        table = ap (◌∷◌ h) v.table;
      },
    )
  ]
]
  where
    before :
        (h : KObjHandle) (hs : List KObjHandle) (i : ℕ)
        → h.valid ≡ true
        → ((j : ℕ) → j < i → (get_or hs j no_handle).valid ≡ true)
        → (j : ℕ) → j < suc i
        → (get_or (h ∷ hs) j no_handle).valid ≡ true
    before h hs i y all zero lt = y
    before h hs i y all (suc j) lt = all j (omega arith)

-- What an object's handle grants.
abbrev pub grants : ℕ → ℕ → ℕ → ℕ
grants object access required = if bit_and access required == required then object else 0

-- KObjHandleInstall of an object in a table of 64 handles takes the first handle that is free, which
-- KObjHandleGet then answers with the object for every access that the installed one covers, and changes no
-- other handle; or every handle is valid, and it answers -1 and changes nothing.
pub handle_install_lem :
    (t : List KObjHandle) (object access handle required : ℕ)
    → length t ≡ 64
    → object ≢ 0
    → (All (λ h. h.valid ≡ true) t × (handle_install t object access ≡ (t, negsuc 0)))
      ⊎ ((i : ℕ) × (i < 64)
          × ((handle_install t object access).1 ≡ pos i)
          × ((get_or t i no_handle).valid ≡ false)
          × ((j : ℕ) → j < i → (get_or t j no_handle).valid ≡ true)
          × (handle_get (handle_install t object access).0 i required
              ≡ grants object access required)
          × ((handle ≡ i)
              ⊎ (handle_get (handle_install t object access).0 handle required
                  ≡ handle_get t handle required)))
unfolding handle_install handle_get
handle_install_lem t object access handle required size some_object =
    let new : KObjHandle = record { valid = true; object = object; access = access } in
    elim (install_loop_lem t new) [
      | inl (full, all) ↦ inl (all, rw (ne→== object 0 some_object, full) refl)
      | inr (i, u, found, v) ↦
          let below : i < 64 = let lt = v.below in omega (arith, size) in
          inr (
            i,
            below,
            rw (ne→== object 0 some_object, found) refl,
            v.free,
            v.first,
            rw (ne→== object 0 some_object, found, lt→leb 64 i below)
                (rw (v.table, get_or-set_self t i new no_handle v.below)
                  (rw (ne→== object 0 some_object) (ground arith))),
            elim (ℕ_discrete handle i) [
              | yes same ↦ inl same
              | no ne ↦ inr (
                  rw (ne→== object 0 some_object, found)
                    (rw (v.table, get_or-set_ne t i handle new no_handle (λ e. ne (sym e))) refl))
            ],
          )
    ]

-- KObjHandleClose of a valid handle calls the close operation of its object, where it has one, and releases
-- one reference to it; afterwards KObjHandleGet answers NULLPTR for the handle and what it did for the
-- others.
pub handle_close_lem :
    (t : List KObjHandle) (s : Namespace) (handle other required : ℕ)
    → handle < 64
    → length t ≡ 64
    → (get_or t handle no_handle).valid ≡ true
    → (get_or t handle no_handle).object ≢ 0
    → other ≢ handle
    → ((handle_close t s handle).result ≡ pos 0)
      × ((handle_close t s handle).namespace ≡ (kobj_unref s (get_or t handle no_handle).object).0)
      × ((handle_close t s handle).calls
          ≡ (if closes (s.objects (get_or t handle no_handle).object).ops
              then close (get_or t handle no_handle).object ∷ []
              else [])
            ++ (kobj_unref s (get_or t handle no_handle).object).1)
      × (handle_get (handle_close t s handle).handles handle required ≡ 0)
      × (handle_get (handle_close t s handle).handles other required ≡ handle_get t other required)
unfolding handle_close handle_get
handle_close_lem t s handle other required lt size valid some_object ne =
    let inside = lt→leb 64 handle lt in
    let object = ne→== (get_or t handle no_handle).object 0 some_object in
    let gone = get_or-set_self t handle no_handle no_handle (omega (arith, size)) in
    let kept = get_or-set_ne t handle other no_handle no_handle (λ e. ne (sym e)) in
    (
      simp (inside, valid, object) refl,
      simp (inside, valid, object) refl,
      simp (inside, valid, object) refl,
      simp (inside, valid, object, gone) refl,
      simp (inside, valid, object, kept) refl,
    )
