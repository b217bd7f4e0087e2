-- ===== src/KObj/Objects.antt =====
-- Objects that are created under a parent and found by their name.
use k_os.Prelude.{
  ℕ, zero, suc, ◌+◌, ◌%◌, ◌^◌, ◌≤◌, ◌<◌, ◌≡◌, refl, sym, ap, ◌∙◌, ◌≢◌, ◌⊎◌, inl, inr, true, false,
  not, ◌||◌, Option, List, [], ◌∷◌, ◌++◌, arith, ◌==◌, ==→eq, ne→==, ==_refl, true≢false,
  Bool-cases, either-branch, length, All,
}
use k_os.Prelude.Ints.{ℤ, pos, negsuc}
use k_os.Strings.Text.{head, str_case_cmp, str_case_fold}
use k_os.Strings.Text.Compare.{IsText, folded, str_case_cmp-folded, str_cmp_iff}
use native.Mathlib.Decide.{ℕ_discrete}
use k_os.KObj.{
  KObj, KObjType, KObjOperations, Namespace, kobj_ref, is_zero, bounded, find_in, find_child,
  has_child, is_directory, new_object, with_child, linked, kobj_create,
}

-- The parent is a directory, and the address is new: neither NULLPTR, nor the root, nor the parent, nor
-- one of its children.
pub record CanCreate (at : ℕ) (s : Namespace) (parent : ℕ) : Type 0 where
  pub some_object : at ≢ 0
  pub some_parent : parent ≢ 0
  pub no_root : at ≢ s.root
  pub apart : at ≢ parent
  pub fresh : All (λ c. c ≢ at) (s.objects parent).children
  pub is_dir : is_directory (s.objects parent).kind ≡ true

-- A name that fits KOBJ_NAME_MAX with its terminator.
pub record IsName (name : List ℕ) : Type 0 where
  pub text : IsText name
  pub some_name : head name ≢ 0
  pub fits : length name < 128

pub bounded_text : (n : ℕ) (name : List ℕ) → IsText name → length name ≤ n → bounded n name ≡ name
unfolding bounded
bounded_text zero [] t le = refl
bounded_text zero (c ∷ name) t le = absurd (omega arith)
bounded_text (suc n) [] t le = refl
bounded_text (suc n) (c ∷ name) t le =
    rw (ne→== c 0 t.0) (ap (◌∷◌ c) (bounded_text n name t.1 (omega arith)))

module _ (at : ℕ) (s : Namespace) (parent : ℕ) (name : List ℕ) (kind : KObjType)
    (ops : Option KObjOperations) (private : ℕ) (v : CanCreate at s parent) where
  abbrev after : Namespace
  after = linked s at parent (new_object parent name kind ops private)

  pub linked-parent : after.objects parent ≡ (record (with_child at (s.objects parent)) {
    ref_count = ((s.objects parent).ref_count + 1) % 2 ^ 32;
  })
  unfolding linked kobj_ref
  linked-parent =
      simp (ne→== parent 0 v.some_parent, ne→== parent at (λ e. v.apart (sym e)), ==_refl parent)
        refl

  linked-other : (q : ℕ) → q ≢ at → q ≢ parent → after.objects q ≡ s.objects q
  unfolding linked kobj_ref
  linked-other q n m = simp (ne→== q at n, ne→== q parent m, ne→== parent 0 v.some_parent) refl

  linked-name : (q : ℕ) → q ≢ at → (after.objects q).name ≡ (s.objects q).name
  linked-name q ne = elim (ℕ_discrete q parent) [
    | yes e ↦ rw (e, linked-parent) refl
    | no other ↦ ap (λ (o : KObj). o.name) (linked-other q ne other)
  ]

  pub linked-new :
      ((after.objects at).name ≡ bounded 127 name)
      × ((after.objects at).parent ≡ parent)
      × ((after.objects at).ref_count ≡ 1)
      × ((after.objects at).ops ≡ ops)
      × ((after.objects at).private ≡ private)
  unfolding linked kobj_ref
  linked-new =
      let some_parent = ne→== parent 0 v.some_parent in
      let apart = ne→== at parent v.apart in
      (
        simp (some_parent, apart, ==_refl at) refl,
        simp (some_parent, apart, ==_refl at) refl,
        simp (some_parent, apart, ==_refl at) refl,
        simp (some_parent, apart, ==_refl at) refl,
        simp (some_parent, apart, ==_refl at) refl,
      )

  pub linked-root : after.root ≡ s.root
  unfolding linked kobj_ref
  linked-root = rw (ne→== parent 0 v.some_parent) refl

  find_in-after :
      (cs : List ℕ)
      → All (λ c. c ≢ at) cs
      → has_child s cs name ≡ false
      → is_zero (str_case_cmp (after.objects at).name name) ≡ true
      → (find_in after (cs ++ (at ∷ [])) name ≡ at)
        × (has_child after (cs ++ (at ∷ [])) name ≡ true)
  unfolding find_in has_child
  find_in-after [] fresh absent same = (rw same refl, rw same refl)
  find_in-after (c ∷ cs) fresh absent same =
      elim (Bool-cases (is_zero (str_case_cmp (s.objects c).name name))) [
        | inl y ↦ absurd (true≢false (rw y at absent))
        | inr n ↦
            let (found, present) = find_in-after cs fresh.1 (rw n at absent) same in
            let here : is_zero (str_case_cmp (after.objects c).name name) ≡ false =
              rw (linked-name c fresh.0) n in
            (rw here found, rw here present)
      ]

is_zero→eq : (z : ℤ) → z ≡ pos 0 → is_zero z ≡ true
is_zero→eq z e = rw e refl

IsText-folded : (name : List ℕ) → IsText name → IsText (folded name)
unfolding str_case_fold
IsText-folded [] t = tt
IsText-folded (c ∷ name) t = (let ne = t.0 in λ e. ne (ground (arith, e)), IsText-folded name t.1)

str_case_cmp_self : (name : List ℕ) → IsText name → str_case_cmp name name ≡ pos 0
str_case_cmp_self name t =
    let u = IsText-folded name t in
    str_case_cmp-folded name name ∙ (str_cmp_iff (folded name) (folded name) u u).1 refl

pub made :
    (at : ℕ) (s : Namespace) (parent : ℕ) (name : List ℕ) (kind : KObjType)
    → (ops : Option KObjOperations) → (private : ℕ) → CanCreate at s parent
    → head name ≢ 0
    → has_child s (s.objects parent).children name ≡ false
    → kobj_create at s parent name kind ops private
      ≡ (linked s at parent (new_object parent name kind ops private), at)
unfolding kobj_create
made at s parent name kind ops private v some_name absent =
    simp
      (
        ne→== parent 0 v.some_parent,
        ne→== (head name) 0 some_name,
        v.is_dir,
        absent,
        ne→== at 0 v.some_object,
      )
      refl

refused :
    (at : ℕ) (s : Namespace) (parent : ℕ) (name : List ℕ) (kind : KObjType)
    → (ops : Option KObjOperations) → (private : ℕ)
    → has_child s (s.objects parent).children name ≡ true
    → kobj_create at s parent name kind ops private ≡ (s, 0)
unfolding kobj_create
refused at s parent name kind ops private y =
    let result : Namespace × ℕ = (s, 0) in
    either-branch (λ r. r ≡ result) (parent == 0 || head name == 0) _ _ refl
      (either-branch (λ r. r ≡ result) (not (is_directory (s.objects parent).kind)) _ _ refl
        (rw y refl))

-- An object of the list has the name: StrCaseCmp tells no difference.
unfoldable pub SomeHas : Namespace → List ℕ → List ℕ → Type 0
SomeHas s [] name = ⊥
SomeHas s (c ∷ cs) name = (str_case_cmp (s.objects c).name name ≡ pos 0) ⊎ SomeHas s cs name

is_zero-eq : (z : ℤ) → is_zero z ≡ true → z ≡ pos 0
is_zero-eq (pos n) y = ap pos (==→eq n 0 y)
is_zero-eq (negsuc n) y = absurd (true≢false (sym y))

has_child-SomeHas :
    (s : Namespace) (name cs : List ℕ)
    → ((has_child s cs name ≡ true) × SomeHas s cs name)
      ⊎ ((has_child s cs name ≡ false) × All (λ c. str_case_cmp (s.objects c).name name ≢ pos 0) cs)
unfolding has_child SomeHas
has_child-SomeHas s name [] = inr (refl, tt)
has_child-SomeHas s name (c ∷ cs) =
    let z = str_case_cmp (s.objects c).name name in
    elim (Bool-cases (is_zero z)) [
      | inl y ↦ inl (rw y refl, inl (is_zero-eq z y))
      | inr n ↦
          let differs : z ≢ pos 0 = λ e. true≢false (sym (is_zero→eq z e) ∙ n) in
          elim (has_child-SomeHas s name cs) [
            | inl (y, has) ↦ inl (rw n y, inr has)
            | inr (m, all) ↦ inr (rw n m, (differs, all))
          ]
    ]

-- Where every child has another name, the duplicate check finds none.
pub has_child-other_names :
    (s : Namespace) (name cs : List ℕ)
    → All (λ c. str_case_cmp (s.objects c).name name ≢ pos 0) cs
    → has_child s cs name ≡ false
unfolding has_child
has_child-other_names s name [] h = refl
has_child-other_names s name (c ∷ cs) h =
    let z = str_case_cmp (s.objects c).name name in
    elim (Bool-cases (is_zero z)) [
      | inl y ↦ absurd (h.0 (is_zero-eq z y))
      | inr n ↦ rw n (has_child-other_names s name cs h.1)
    ]

-- KObjCreate under a directory, with memory at an address that is new, of a name that is not empty and
-- shorter than KOBJ_NAME_MAX. Where StrCaseCmp finds a child with the name, it answers NULLPTR and changes
-- nothing. Where it tells the name from that of every child, the new object is answered; it is the last
-- child then, KObjFindChildLocked finds it by its name, and KObjCreate of the same name again answers
-- NULLPTR and changes nothing, whatever memory it is given.
pub find_child-kobj_create :
    (at another : ℕ) (s : Namespace) (parent : ℕ) (name : List ℕ) (kind : KObjType)
    → (ops : Option KObjOperations) → (private : ℕ) → CanCreate at s parent
    → IsName name
    → (SomeHas s (s.objects parent).children name
        × (kobj_create at s parent name kind ops private ≡ (s, 0)))
      ⊎ (All (λ c. str_case_cmp (s.objects c).name name ≢ pos 0) (s.objects parent).children
          × ((kobj_create at s parent name kind ops private).1 ≡ at)
          × (((kobj_create at s parent name kind ops private).0.objects parent).children
              ≡ (s.objects parent).children ++ (at ∷ []))
          × (find_child (kobj_create at s parent name kind ops private).0 parent name ≡ at)
          × (kobj_create another
                (kobj_create at s parent name kind ops private).0
                parent
                name
                kind
                ops
                private
              ≡ ((kobj_create at s parent name kind ops private).0, 0)))
unfolding find_child
find_child-kobj_create at another s parent name kind ops private v n =
    elim (has_child-SomeHas s name (s.objects parent).children) [
      | inl (y, has) ↦ inl (has, refused at s parent name kind ops private y)
      | inr (absent, other_names) ↦
          let done = made at s parent name kind ops private v n.some_name absent in
          let o = new_object parent name kind ops private in
          let children =
            ap (λ (o : KObj). o.children) (linked-parent at s parent name kind ops private v) in
          let same_name =
            (linked-new at s parent name kind ops private v).0
            ∙ bounded_text 127 name n.text (let lt = n.fits in omega arith) in
          let equal : is_zero (str_case_cmp ((linked s at parent o).objects at).name name) ≡ true =
            rw same_name (is_zero→eq _ (str_case_cmp_self name n.text)) in
          let (found, present) =
            find_in-after at s parent name kind ops private v (s.objects parent).children v.fresh
              absent equal in
          rw done (
            inr (
              other_names,
              refl,
              children,
              rw children found,
              refused another (linked s at parent o) parent name kind ops private
                  (rw children present),
            ))
    ]
