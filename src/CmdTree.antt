-- ===== src/CmdTree.antt =====
-- CommandParser/cmd_hier.h and cmd_hier.c: the tree of commands, how it grows, and how a token is
-- looked up in it (find_matching_param of parser.c). A `param_t *` is a number, null is `none`.
pub mod Hook
pub mod Match
pub mod Members
pub mod Negation
pub mod Register
mod Tests
use tcpserver_lib.Base.{
  ℕ, zero, suc, ◌+◌, Bool, true, false, not, ◌&&◌, ◌||◌, Option, none, some, List, [], ◌∷◌, ◌++◌,
  Outcome, ok, stop, memory, fuel, assertion, ◌>>=◌, ◌>>◌, deref, assert, ◌==◌, ltb, if◌then◌else◌,
  length, get_elem?, take, replicate,
}
use tcpserver_lib.Strings.{leaf_value_holder_size}
use tcpserver_lib.Tlv.{LeafType, invalid}

-- `leaf_t`. The callback is `none` if it is null, and tells whether it returns 0.
pub record Leaf : Type 0 where
  pub leaf_type : LeafType
  pub value_holder : List ℕ
  pub user_validation_cb_fn : Option (List ℕ → Bool)
  pub leaf_id : List ℕ

-- `param_type` and what the union of that name holds: the name of a command, or a leaf.
pub data CmdType : Type 0 where
  cmd : List ℕ → CmdType
  leaf : Leaf → CmdType
  no_cmd : List ℕ → CmdType

-- `param_t`. A function pointer is a number; `cmdcode` is `none` for the initial -1.
pub record Param : Type 0 where
  pub cmd_type : CmdType
  pub callback : Option ℕ
  pub is_hidden : Bool
  pub help : List ℕ
  pub options : List (Option ℕ)
  pub parent : Option ℕ
  pub disp_callback : Option ℕ
  pub cmdcode : Option ℕ

-- What each address holds.
abbrev pub Params : Type 0
Params = ℕ → Option Param

abbrev pub put_param : ℕ → Param → Params → Params
put_param p c h q = if q == p then some c else h q

abbrev pub modify_param : ℕ → (Param → Param) → Params → Outcome Params
modify_param p f h = do c ← deref (h p); ok (put_param p (f c) h)

abbrev pub max_option_size : ℕ
max_option_size = 16

abbrev pub possibility_array_size : ℕ
possibility_array_size = 10

-- The addresses of the static variables.
abbrev pub root : ℕ
root = 0

abbrev pub do_hook : ℕ
do_hook = 1

abbrev pub config : ℕ
config = 2

abbrev pub repeat : ℕ
repeat = 3

abbrev pub show_brief_extension : ℕ
show_brief_extension = 4

abbrev pub mode_param : ℕ
mode_param = 5

abbrev pub suboptions_param : ℕ
suboptions_param = 6

abbrev pub cmd_expansion_param : ℕ
cmd_expansion_param = 7

-- `param_type_t`.
pub data ParamType : Type 0 where
  cmd_param leaf_param no_cmd_param : ParamType

-- "no".
abbrev pub negate_character : List ℕ
negate_character = 110 ∷ 111 ∷ []

abbrev pub init_cmd_type : ParamType → List ℕ → Option (List ℕ → Bool) → LeafType → List ℕ → CmdType
init_cmd_type cmd_param name valid type id = cmd (take 31 name)
init_cmd_type leaf_param name valid type id = leaf (record {
  leaf_type = type;
  value_holder = replicate leaf_value_holder_size 0;
  user_validation_cb_fn = valid;
  leaf_id = take 31 id;
})
init_cmd_type no_cmd_param name valid type id = no_cmd negate_character

-- `init_param` of a variable in memory that holds zeros.
unfoldable pub init_param :
    ParamType → List ℕ → Option ℕ → Option (List ℕ → Bool) → LeafType → List ℕ → List ℕ → Param
init_param param_type name callback valid type id help = record {
  cmd_type = init_cmd_type param_type name valid type id;
  callback = callback;
  is_hidden = false;
  help = take 63 help;
  options = replicate max_option_size none;
  parent = none;
  disp_callback = none;
  cmdcode = none;
}

unfoldable pub set_param_cmd_code : ℕ → ℕ → Params → Outcome Params
set_param_cmd_code p code h = do
  c ← deref (h p)
  callback ← stop_if_null c.callback
  ok (put_param p (record c { cmdcode = some code }) h)
  where
    stop_if_null : Option ℕ → Outcome ℕ
    stop_if_null none = stop assertion
    stop_if_null (some f) = ok f

-- A null entry gets this default.
abbrev pub default_to : ℕ → Option ℕ → Option ℕ
default_to d none = some d
default_to d (some p) = some p

-- The loop over the children: the first null entry gets the child.
abbrev pub add_child : ℕ → List (Option ℕ) → Outcome (List (Option ℕ))
add_child c [] = stop assertion
add_child c (none ∷ rest) = ok (some c ∷ rest)
add_child c (some p ∷ rest) = do rest ← add_child c rest; ok (some p ∷ rest)

abbrev pub add_option : ℕ → List (Option ℕ) → Outcome (List (Option ℕ))
add_option c (a ∷ (b ∷ (e ∷ rest))) = do
  rest ← add_child c rest
  ok (
      default_to mode_param a
      ∷ (default_to suboptions_param b ∷ (default_to cmd_expansion_param e ∷ rest)))
add_option c _ = stop memory

abbrev pub parent_or_root : Option ℕ → ℕ
parent_or_root none = root
parent_or_root (some p) = p

unfoldable pub libcli_register_param : Option ℕ → ℕ → Params → Outcome Params
libcli_register_param parent child h = do
  let p = parent_or_root parent
  q ← deref (h p)
  options ← add_option child q.options
  modify_param child (λ c. record c { parent = some p })
      (put_param p (record q { options = options }) h)

unfoldable pub enable_show_extension_param_brief : ℕ → Params → Outcome Params
unfolding libcli_register_param
enable_show_extension_param_brief p h = do
  q ← deref (h p)
  assert (is_registered q.callback)
  libcli_register_param (some p) show_brief_extension h
  where
    is_registered : Option ℕ → Bool
    is_registered none = false
    is_registered (some f) = true

abbrev pub is_no_cmd : CmdType → Bool
is_no_cmd (cmd name) = false
is_no_cmd (leaf l) = false
is_no_cmd (no_cmd name) = true

unfoldable pub libcli_register_display_callback : ℕ → ℕ → Params → Outcome Params
libcli_register_display_callback p f h = do
  c ← deref (h p)
  assert (not (is_no_cmd c.cmd_type))
  ok (put_param p (record c { disp_callback = some f }) h)

-- `strncmp(a, b, n) == 0`.
abbrev pub strncmp_eq : List ℕ → List ℕ → ℕ → Bool
strncmp_eq a b zero = true
strncmp_eq [] [] (suc n) = true
strncmp_eq [] (d ∷ b) (suc n) = false
strncmp_eq (c ∷ a) [] (suc n) = false
strncmp_eq (c ∷ a) (d ∷ b) (suc n) = (c == d) && strncmp_eq a b n

-- What the loop of `find_matching_param` makes of an option.
pub data Kind : Type 0 where
  a_leaf exact partial different : Kind

-- `is_cmd_string_match`.
unfoldable pub is_cmd_string_match : List ℕ → List ℕ → Kind
is_cmd_string_match name str =
    if strncmp_eq name str (length str)
    then (if length str == length name then exact else partial)
    else different

abbrev pub kind : List ℕ → CmdType → Kind
kind str (cmd name) = is_cmd_string_match name str
kind str (leaf l) = a_leaf
kind str (no_cmd name) = is_cmd_string_match name str

abbrev pub kind_at : Params → List ℕ → ℕ → Outcome Kind
kind_at h str p = do q ← deref (h p); ok (kind str q.cmd_type)

-- A round of the loop, where `more` is the rest of the loop.
abbrev pub by_kind :
    Kind
    → ℕ
    → Option ℕ
    → List ℕ
    → (Option ℕ → List ℕ → Outcome (Option ℕ × List ℕ))
    → Outcome (Option ℕ × List ℕ)
by_kind a_leaf p last found more = more (some p) found
by_kind exact p last found more = ok (last, p ∷ [])
by_kind partial p last found more = do
  assert (ltb (length found + 1) possibility_array_size)
  more last (found ++ (p ∷ []))
by_kind different p last found more = more last found

-- The loop over the options, with the last leaf so far and `array_of_possibilities`. It reads
-- `options[i]` before it compares `i` with the size of the array.
unfoldable pub find_loop :
    Params → List ℕ → List (Option ℕ) → Option ℕ → List ℕ → Outcome (Option ℕ × List ℕ)
find_loop h str [] last found = stop memory
find_loop h str (none ∷ rest) last found = ok (last, found)
find_loop h str (some p ∷ rest) last found = do
  k ← kind_at h str p
  by_kind k p last found (find_loop h str rest)

-- The answer of the user to the question which one is meant; `none` is a number below 0.
abbrev pub chosen : Option ℕ → List ℕ → Option ℕ
chosen none found = none
chosen (some i) found = get_elem? found i

abbrev pub pick : Option ℕ → Option ℕ → List ℕ → Option ℕ
pick choice last [] = last
pick choice last (p ∷ []) = some p
pick choice last (p ∷ (q ∷ found)) = chosen choice (p ∷ (q ∷ found))

unfoldable pub find_matching_param :
    Params → Option ℕ → List (Option ℕ) → List ℕ → Outcome (Option ℕ)
find_matching_param h choice options str = do
  (last, found) ← find_loop h str options none []
  ok (pick choice last found)

-- The loop of `get_current_branch_hook`.
unfoldable pub hook_loop : ℕ → Params → ℕ → Outcome ℕ
hook_loop zero h p = stop fuel
hook_loop (suc k) h p = do
  c ← deref (h p)
  elim c.parent [
    | none ↦ stop memory
    | some q ↦ elim (q == root) [ true ↦ ok p | false ↦ hook_loop k h q ]
  ]

unfoldable pub get_current_branch_hook : ℕ → Params → ℕ → Outcome ℕ
unfolding hook_loop
get_current_branch_hook k h p = do assert (not (p == root)); hook_loop k h p

abbrev pub is_negation : Params → Option ℕ → Outcome Bool
is_negation h none = ok false
is_negation h (some p) = do c ← deref (h p); ok (is_no_cmd c.cmd_type)

-- The children, up to the first null entry, in an array that holds nulls.
abbrev pub copy_children : List (Option ℕ) → List (Option ℕ)
copy_children [] = []
copy_children (none ∷ rest) = replicate (suc (length rest)) none
copy_children (some p ∷ rest) = some p ∷ copy_children rest

abbrev pub negated_options : List (Option ℕ) → List (Option ℕ)
negated_options (a ∷ (b ∷ (e ∷ rest))) =
    some suboptions_param
    ∷ (some suboptions_param ∷ (some cmd_expansion_param ∷ copy_children rest))
negated_options options = options

abbrev pub add_negation : ℕ → List (Option ℕ) → Outcome (List (Option ℕ))
add_negation no_param (a ∷ (b ∷ (e ∷ rest))) = do
  rest ← add_child no_param rest
  ok (a ∷ (b ∷ (e ∷ rest)))
add_negation no_param _ = stop memory

-- "Command Negation".
abbrev pub negation_help : List ℕ
negation_help =
    67 ∷ 111 ∷ 109 ∷ 109 ∷ 97 ∷ 110 ∷ 100 ∷ 32 ∷ 78 ∷ 101 ∷ 103 ∷ 97 ∷ 116 ∷ 105 ∷ 111 ∷ 110 ∷ []

-- `no_param` is the address that `calloc` returns, and `negate_callback` the function of that name.
unfoldable pub support_cmd_negation :
    ℕ → (choice : Option ℕ) → (no_param negate_callback : ℕ) → ℕ → Params → Outcome Params
unfolding get_current_branch_hook find_matching_param init_param
support_cmd_negation k choice no_param negate_callback p h = do
  hook ← get_current_branch_hook k h p
  assert (hook == config)
  q ← deref (h p)
  old ← find_matching_param h choice q.options negate_character
  negated ← is_negation h old
  elim negated [
    | true ↦ ok h
    | false ↦ do
      options ← add_negation no_param q.options
      let fresh =
          init_param no_cmd_param negate_character (some negate_callback) none invalid []
            negation_help
      ok (
          put_param no_param (record fresh { options = negated_options q.options; parent = some p })
            (put_param p (record q { options = options }) h))
  ]
