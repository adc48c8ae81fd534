-- ===== src/Json/Concrete.antt =====
-- A concrete value type for JSON with integers for `double`, at which the examples run. It shows
-- that the laws of `Json` can hold.
use receipt_scanner.Prelude.{
  ◌*◌, ◌+◌, ◌≡◌, ◌≢◌, refl, Bool, true, false, Option, none, some, List, [], ◌∷◌, Text, text_eq,
  text_eq_iff, ℤ, pos, negsuc, pos_part, neg_part, sub_ℕ, leb_ℤ, ltb_ℤ, IsInt64, int64_max,
  int64_min, In, inl, inr, arith, leb, if◌then◌else◌, Bool-cases,
}
use receipt_scanner.Json.{Doubles, Json}

-- Out of range, the least int64_t.
abbrev clamp64 : ℤ → ℤ
clamp64 (pos n) = if leb n int64_max then pos n else int64_min
clamp64 (negsuc n) = if leb n int64_max then negsuc n else int64_min

pub clamp64_range : (x : ℤ) → IsInt64 (clamp64 x)
clamp64_range (pos n) = ground arith
clamp64_range (negsuc n) = ground arith

abbrev pub integers : Doubles
integers = record {
  Double = ℤ;
  is_finite = λ _. true;
  is_le_zero = λ x. leb_ℤ x (pos 0);
  is_lt_zero = λ x. ltb_ℤ x (pos 0);
  is_gt_zero = λ x. ltb_ℤ (pos 0) x;
  is_ge_zero = λ x. leb_ℤ (pos 0) x;
  lt = ltb_ℤ;
  zero = pos 0;
  mul = λ a b.
      sub_ℕ (pos_part a * pos_part b + neg_part a * neg_part b)
        (pos_part a * neg_part b + neg_part a * pos_part b);
  of_int = λ x. x;
  llround = clamp64;
  llround_range = clamp64_range;
}

mutual
  pub data Node : Type 0 where
    null : Node
    bool : Bool → Node
    num : ℤ → Node
    str : Text → Node
    arr : Nodes → Node
    obj : Fields → Node

  pub data Nodes : Type 0 where
    nil : Nodes
    cons : Node → Nodes → Nodes

  pub data Fields : Type 0 where
    end : Fields
    field : Text → Node → Fields → Fields

abbrev pub nodes : Nodes → List Node
nodes nil = []
nodes (cons v vs) = v ∷ nodes vs

abbrev pub entries : Fields → List (Text × Node)
entries end = []
entries (field k v fs) = (k, v) ∷ entries fs

unfoldable pub find_in : List (Text × Node) → Text → Option Node
find_in [] k = none
find_in ((i, v) ∷ fs) k = if text_eq i k then some v else find_in fs k

find_in-In : (fs : List (Text × Node)) (k : Text) (x : Node) → find_in fs k ≡ some x → In (k, x) fs
unfolding find_in
find_in-In [] k x e = cc
find_in-In ((i, v) ∷ fs) k x e = elim (Bool-cases (text_eq i k)) [
  | inl same ↦ inl (cc ((text_eq_iff i k).0 same, (rw (same, find_in) at e)))
  | inr other ↦ inr (find_in-In fs k x (rw (other, find_in) at e))
]

-- The range of `get<int64_t>`, with wrap-around replaced by 0: only in-range numbers are stored.
unfoldable pub int64_of : Node → ℤ
int64_of (num (pos n)) = if leb n int64_max then pos n else pos 0
int64_of (num (negsuc n)) = if leb n int64_max then negsuc n else pos 0
int64_of _ = pos 0

pub int64_of_range : (v : Node) → IsInt64 (int64_of v)
unfolding int64_of
int64_of_range (num (pos n)) = ground arith
int64_of_range (num (negsuc n)) = ground arith
int64_of_range _ = omega arith

unfoldable pub set_in : Fields → Text → Node → Fields
set_in end k x = field k x end
set_in (field i v fs) k x = if text_eq i k then field i x fs else field i v (set_in fs k x)

abbrev set_at : Node → Text → Node → Node
set_at (obj fs) k x = obj (set_in fs k x)
set_at v k x = v

find_in-set_in : (fs : Fields) (k : Text) (x : Node) → find_in (entries (set_in fs k x)) k ≡ some x
unfolding find_in set_in
find_in-set_in end k x = rw ((text_eq_iff k k).1 refl) refl
find_in-set_in (field i v fs) k x = elim (Bool-cases (text_eq i k)) [
  | inl e ↦ rw (e, set_in) (rw (e, find_in) refl)
  | inr e ↦ rw (e, set_in) (rw (e, find_in) (find_in-set_in fs k x))
]

find_in-set_in_other :
    (fs : Fields) (k i : Text) (x : Node)
    → i ≢ k
    → find_in (entries (set_in fs k x)) i ≡ find_in (entries fs) i
unfolding find_in set_in
find_in-set_in_other end k i x other = ground (arith, text_eq_iff k i)
find_in-set_in_other (field l v fs) k i x other =
    ground (arith, text_eq_iff l k, text_eq_iff l i, find_in-set_in_other fs k i x other)

abbrev text_of : Node → Text
text_of (str s) = s
text_of _ = []

abbrev number_of : Node → ℤ
number_of (num n) = n
number_of _ = pos 0

abbrev children : Node → List Node
children (arr vs) = nodes vs
children _ = []

abbrev entries_of : Node → List (Text × Node)
entries_of (obj fs) = entries fs
entries_of _ = []

pub find_at-In :
    (v : Node) (k : Text) (x : Node) → find_in (entries_of v) k ≡ some x → In (k, x) (entries_of v)
find_at-In v k x e = find_in-In (entries_of v) k x e

abbrev is_obj : Node → Bool
is_obj (obj _) = true
is_obj _ = false

pub is_obj-set_at :
    (v : Node) (k : Text) (x : Node) → is_obj v ≡ true → is_obj (set_at v k x) ≡ true
is_obj-set_at (obj fs) k x h = refl
is_obj-set_at _ k x h = cc

pub find-set_at :
    (v : Node) (k : Text) (x : Node)
    → is_obj v ≡ true
    → find_in (entries_of (set_at v k x)) k ≡ some x
find-set_at (obj fs) k x h = find_in-set_in fs k x
find-set_at _ k x h = cc

pub find-set_at_other :
    (v : Node) (k i : Text) (x : Node)
    → i ≢ k
    → find_in (entries_of (set_at v k x)) i ≡ find_in (entries_of v) i
find-set_at_other (obj fs) k i x other = find_in-set_in_other fs k i x other
find-set_at_other _ k i x other = refl

abbrev pub tree : Json integers
tree = record {
  Value = Node;
  is_object = is_obj;
  is_array = λ v. elim v [ arr _ ↦ true | _ ↦ false ];
  is_null = λ v. elim v [ null ↦ true | _ ↦ false ];
  is_string = λ v. elim v [ str _ ↦ true | _ ↦ false ];
  is_boolean = λ v. elim v [ bool _ ↦ true | _ ↦ false ];
  is_number = λ v. elim v [ num _ ↦ true | _ ↦ false ];
  is_number_integer = λ v. elim v [ num _ ↦ true | _ ↦ false ];
  is_number_unsigned = λ v. elim v [ num (pos _) ↦ true | _ ↦ false ];
  get_string = text_of;
  get_bool = λ v. elim v [ bool b ↦ b | _ ↦ false ];
  get_uint64 = λ v. pos_part (number_of v);
  get_int64 = int64_of;
  get_double = number_of;
  elements = children;
  items = entries_of;
  find = λ v k. find_in (entries_of v) k;
  of_string = str;
  empty_object = obj end;
  set = set_at;
  get_int64_range = int64_of_range;
  find-In = find_at-In;
  is_object-empty_object = refl;
  is_object-set = is_obj-set_at;
  find-set = find-set_at;
  find-set_other = find-set_at_other;
  is_string-of_string = λ _. refl;
  get_string-of_string = λ _. refl;
}
