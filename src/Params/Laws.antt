-- ===== src/Params/Laws.antt =====
-- What is read after a write.
use inc_ql.Base.{
  String, List, [], ◌∷◌, ◌++◌, none, some, ◌==◌, if◌then◌else◌, ◌≡◌, refl, arith, eq_iff, false,
  ◌∙◌,
}
use mathlib.Core.List.{append_assoc, append-nil}
use inc_ql.Params.Defs.{Params, get, get_all, delete, set, append, append_each}

pub get-delete :
    (j k : String) (p : Params) → get j (delete k p) ≡ (if k == j then none else get j p)
unfolding get delete
get-delete j k [] = ground arith
get-delete j k ((i, v) ∷ p) = ground (arith, eq_iff k j, eq_iff i k, eq_iff i j, get-delete j k p)

pub get-set :
    (j k v : String) (p : Params) → get j (set k v p) ≡ (if k == j then some v else get j p)
unfolding get set
get-set j k v [] = refl
get-set j k v ((i, w) ∷ p) =
    ground (arith, eq_iff k j, eq_iff i k, eq_iff i j, get-delete j k p, get-set j k v p)

pub get_all-delete :
    (j k : String) (p : Params) → get_all j (delete k p) ≡ (if k == j then [] else get_all j p)
unfolding get_all delete
get_all-delete j k [] = ground arith
get_all-delete j k ((i, v) ∷ p) =
    ground (arith, eq_iff k j, eq_iff i k, eq_iff i j, get_all-delete j k p)

-- A write under another name.
pub get_all-set_ne :
    (j k v : String) (p : Params) → (k == j) ≡ false → get_all j (set k v p) ≡ get_all j p
unfolding get_all set
get_all-set_ne j k v [] h = rw h
get_all-set_ne j k v ((i, w) ∷ p) h =
    ground (arith, eq_iff i k, eq_iff i j, get_all-delete j k p, get_all-set_ne j k v p)

get-append_ne : (j k v : String) (p : Params) → (k == j) ≡ false → get j (append k v p) ≡ get j p
unfolding get append
get-append_ne j k v [] h = rw h
get-append_ne j k v ((i, w) ∷ p) h = ground (arith, get-append_ne j k v p)

get_all-append_self : (k v : String) (p : Params) → get_all k (append k v p) ≡ get_all k p ++ v ∷ []
unfolding get_all append
get_all-append_self k v [] = ground (arith, eq_iff k k)
get_all-append_self k v ((i, w) ∷ p) = ground (arith, get_all-append_self k v p)

pub get-append_each_ne :
    (j k : String) (vs : List String) (p : Params)
    → (k == j) ≡ false
    → get j (append_each k vs p) ≡ get j p
unfolding append_each
get-append_each_ne j k [] p h = refl
get-append_each_ne j k (v ∷ vs) p h =
    get-append_each_ne j k vs (append k v p) h ∙ get-append_ne j k v p h

pub get_all-append_each :
    (k : String) (vs : List String) (p : Params)
    → get_all k (append_each k vs p) ≡ get_all k p ++ vs
unfolding append_each
get_all-append_each k [] p = simp append-nil
get_all-append_each k (v ∷ vs) p =
    get_all-append_each k vs (append k v p)
    ∙ rw (get_all-append_self k v p) (append_assoc (get_all k p) (v ∷ []) vs)
