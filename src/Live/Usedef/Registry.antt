-- ===== src/Live/Usedef/Registry.antt =====
-- bpflive_register_kfunc: the table of kernel functions keeps one entry per id.
use verifierloop.Base.{ℕ, ◌+◌, ◌≤◌, ◌^◌, ◌≡◌, false, ◌||◌, List, [], ◌∷◌, ◌++◌, length}
use verifierloop.Base.{
  none, some, ◌==◌, leb, if◌then◌else◌, arith, Bool-cases, ltb, ◌&&◌, not, ap, inl, inr, refl,
}
use verifierloop.Live.Usedef.{Kfunc, max_kfuncs, kfunc_argc, registered, register_kfunc}

abbrev Distinct : List Kfunc → Type 0
Distinct [] = Unit
Distinct (k ∷ ks) = (registered ks k.btf_id ≡ false) × Distinct ks

-- No two entries of the table have one id, and there are at most 32.
pub record IsRegistry (ks : List Kfunc) : Type 0 where
  pub distinct : Distinct ks
  pub bounded : length ks ≤ max_kfuncs

module _ (k : Kfunc) where
  length-snoc : (ks : List Kfunc) → length (ks ++ k ∷ []) ≡ length ks + 1
  length-snoc [] = refl
  length-snoc (x ∷ ks) = omega (arith, length-snoc ks)

  registered-snoc :
      (ks : List Kfunc) (id : ℕ) → registered (ks ++ k ∷ []) id ≡ registered ks id || k.btf_id == id
  unfolding registered
  registered-snoc [] id = ground arith
  registered-snoc (x ∷ ks) id = ground (arith, registered-snoc ks id)

  Distinct-snoc :
      (ks : List Kfunc) → Distinct ks → registered ks k.btf_id ≡ false → Distinct (ks ++ k ∷ [])
  unfolding registered
  Distinct-snoc [] d new = (refl, tt)
  Distinct-snoc (x ∷ ks) (a, d) new =
      (ground (arith, registered-snoc ks x.btf_id), Distinct-snoc ks d (ground arith))

  kfunc_argc-snoc :
      (ks : List Kfunc) (id : ℕ)
      → kfunc_argc (ks ++ k ∷ []) id ≡ (
          if registered ks id
          then kfunc_argc ks id
          else if k.btf_id == id
          then some k.argc
          else none)
  unfolding kfunc_argc registered
  kfunc_argc-snoc [] id = refl
  kfunc_argc-snoc (x ∷ ks) id = ground (arith, kfunc_argc-snoc ks id)

kfunc_argc-none : (ks : List Kfunc) (id : ℕ) → registered ks id ≡ false → kfunc_argc ks id ≡ none
unfolding kfunc_argc registered
kfunc_argc-none [] id h = refl
kfunc_argc-none (x ∷ ks) id h = ground (arith, kfunc_argc-none ks id)

-- Registering a function keeps the table: no two entries with one id, and at most 32 entries.
pub register_kfunc-IsRegistry :
    (ks : List Kfunc) (id argc : ℕ) → IsRegistry ks → IsRegistry (register_kfunc ks id argc)
unfolding register_kfunc
register_kfunc-IsRegistry ks id argc v =
    elim (Bool-cases (id == 0 || leb (2 ^ 31) id || leb max_kfuncs (length ks))) [
      | inl e ↦ rw e v
      | inr e ↦ elim (Bool-cases (registered ks id)) [
        | inl r ↦ rw (e, r) v
        | inr r ↦
            rw (e, r)
              (record {
                distinct = Distinct-snoc _ ks v.distinct r;
                bounded = ground (arith, length-snoc (record { btf_id = id; argc = argc }) ks);
              })
      ]
    ]

-- After a function is registered, a lookup answers as before, but for one case: a lookup of its
-- own id, if that was not in the table, is positive as an `int` and the table had room, answers
-- with its number of arguments.
pub kfunc_argc-register_kfunc :
    (ks : List Kfunc) (id argc i : ℕ)
    → kfunc_argc (register_kfunc ks id argc) i ≡ (
        if id == i
          && not (registered ks id)
          && ltb 0 id
          && ltb id (2 ^ 31)
          && ltb (length ks) max_kfuncs
        then some argc
        else kfunc_argc ks i)
unfolding register_kfunc
kfunc_argc-register_kfunc ks id argc i = ground (
  arith,
  kfunc_argc-snoc (record { btf_id = id; argc = argc }) ks i,
  kfunc_argc-none ks i,
  ap (registered ks),
)
