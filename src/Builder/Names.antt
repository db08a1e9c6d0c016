-- ===== src/Builder/Names.antt =====
-- `mangle` and `mangle_back` of _codec/builder.py. A name is its code points.
use Prim.Native.Char.{code}
use Prim.Native.String.{String}
use wake_sol.Prelude.{ℕ, Bool, false, ◌&&◌, ◌||◌, List, [], ◌∷◌, ◌++◌, ◌==◌, if◌then◌else◌}
use wake_sol.Builder.Structs.{same_bytes}

abbrev pub codes : String → List ℕ
codes String.[] = []
codes (String.◌∷◌ c s) = code c ∷ codes s

unfoldable pub is_one_of : List ℕ → List String → Bool
is_one_of name [] = false
is_one_of name (w ∷ ws) = same_bytes (codes w) name || is_one_of name ws

-- `keyword.iskeyword`
abbrev pub keywords : List String
keywords =
    "False" ∷ "None" ∷ "True" ∷ "and" ∷ "as" ∷ "assert" ∷ "async" ∷ "await" ∷ "break" ∷ "class"
    ∷ "continue" ∷ "def" ∷ "del" ∷ "elif" ∷ "else" ∷ "except" ∷ "finally" ∷ "for" ∷ "from"
    ∷ "global" ∷ "if" ∷ "import" ∷ "in" ∷ "is" ∷ "lambda" ∷ "nonlocal" ∷ "not" ∷ "or" ∷ "pass"
    ∷ "raise" ∷ "return" ∷ "try" ∷ "while" ∷ "with" ∷ "yield" ∷ []

abbrev pub reserved : List String
reserved = "self" ∷ "remaining_accounts" ∷ []

unfoldable pub is_taken : List ℕ → Bool
is_taken name = is_one_of name keywords || is_one_of name reserved

abbrev pub underscore : ℕ
underscore = 0x5f

unfoldable pub mangle : List ℕ → List ℕ
mangle name = if is_taken name then name ++ underscore ∷ [] else name

-- `name[:-1]` of a name that is not empty, and `name.endswith("_")`.
unfoldable pub chop : List ℕ → List ℕ
chop [] = []
chop (c ∷ []) = []
chop (c ∷ d ∷ cs) = c ∷ chop (d ∷ cs)

unfoldable pub ends_underscore : List ℕ → Bool
ends_underscore [] = false
ends_underscore (c ∷ []) = c == underscore
ends_underscore (c ∷ d ∷ cs) = ends_underscore (d ∷ cs)

unfoldable pub mangle_back : List ℕ → List ℕ
mangle_back name = if ends_underscore name && is_taken (chop name) then chop name else name
