-- ===== src/Launch/Tasks.antt =====
-- Lists of task names in one text: the parsing of `excluded_task_names` in trainer/grfpo/launch_config.py and
-- in workflows/grfpo_fragmented_collection.py. A text is the list of its character codes, and Python's
-- `strip` is a parameter of the parser.
use Prim.Native.Char.{code}
use Prim.Native.String.{String}
use verl_vla.Common.{ℕ, Bool, true, false, ◌&&◌, List, [], ◌∷◌, map, any, ◌==◌, if◌then◌else◌}

abbrev pub Text : Type 0
Text = List ℕ

unfoldable pub same_text : Text → Text → Bool
same_text [] [] = true
same_text [] (d ∷ ds) = false
same_text (c ∷ cs) [] = false
same_text (c ∷ cs) (d ∷ ds) = c == d && same_text cs ds

-- `x in xs`
abbrev pub among : Text → List Text → Bool
among x xs = any (λ y. same_text y x) xs

-- `text.replace(",", ":")`
abbrev pub replace_commas : Text → Text
replace_commas text = map (λ c. if c == b',' then b':' else c) text

abbrev add_to_first : ℕ → List Text → List Text
add_to_first c [] = (c ∷ []) ∷ []
add_to_first c (part ∷ parts) = (c ∷ part) ∷ parts

-- `text.split(":")`
unfoldable pub split_colons : Text → List Text
split_colons [] = [] ∷ []
split_colons (c ∷ cs) =
    let rest = split_colons cs in if c == b':' then [] ∷ rest else add_to_first c rest

abbrev pub is_blank : Text → Bool
is_blank [] = true
is_blank (c ∷ cs) = false

unfoldable pub keep_names : List Text → List Text
keep_names [] = []
keep_names (part ∷ parts) =
    let rest = keep_names parts in if is_blank part then rest else part ∷ rest

-- A set of texts: each once.
unfoldable pub set_of_texts : List Text → List Text
set_of_texts [] = []
set_of_texts (x ∷ xs) = let rest = set_of_texts xs in if among x rest then rest else x ∷ rest

-- `[value.strip() for value in text.replace(",", ":").split(":") if value.strip()]`
unfoldable pub parse_names : (Text → Text) → Text → List Text
unfolding split_colons keep_names
parse_names strip text = keep_names (map strip (split_colons (replace_commas text)))

abbrev pub text_of : String → Text
text_of String.[] = []
text_of (String.◌∷◌ c s) = code c ∷ text_of s

-- `[x for x in xs if x not in others]`
unfoldable pub without : List Text → List String → List String
without others [] = []
without others (x ∷ xs) =
    let rest = without others xs in if among (text_of x) others then rest else x ∷ rest

-- `[x for x in xs if x in others]`
unfoldable pub only : List Text → List String → List String
only others [] = []
only others (x ∷ xs) =
    let rest = only others xs in if among (text_of x) others then x ∷ rest else rest
