-- ===== src/Demangle/Operators.antt =====
-- demangle.cc: the tables of operators, builtin types and substitutions.
use ng_log.Prelude.{ℕ, List, [], ◌∷◌, String, codes}

pub data Arity : Type 0 where
  unary binary ternary other : Arity

pub record Operator : Type 0 where
  pub abbrev_name : List ℕ
  pub real_name : List ℕ
  pub arity : Arity

abbrev operator : String → String → Arity → Operator
operator a r n = record { abbrev_name = codes a; real_name = codes r; arity = n }

-- `kOperatorList`
abbrev pub operator_list : List Operator
operator_list =
    operator "nw" "new" unary
    ∷ operator "na" "new[]" unary
    ∷ operator "dl" "delete" unary
    ∷ operator "da" "delete[]" unary
    ∷ operator "ps" "+" unary
    ∷ operator "ng" "-" unary
    ∷ operator "ad" "&" unary
    ∷ operator "de" "*" unary
    ∷ operator "co" "~" unary
    ∷ operator "pl" "+" binary
    ∷ operator "mi" "-" binary
    ∷ operator "ml" "*" binary
    ∷ operator "dv" "/" binary
    ∷ operator "rm" "%" binary
    ∷ operator "an" "&" binary
    ∷ operator "or" "|" binary
    ∷ operator "eo" "^" binary
    ∷ operator "aS" "=" binary
    ∷ operator "pL" "+=" binary
    ∷ operator "mI" "-=" binary
    ∷ operator "mL" "*=" binary
    ∷ operator "dV" "/=" binary
    ∷ operator "rM" "%=" binary
    ∷ operator "aN" "&=" binary
    ∷ operator "oR" "|=" binary
    ∷ operator "eO" "^=" binary
    ∷ operator "ls" "<<" binary
    ∷ operator "rs" ">>" binary
    ∷ operator "lS" "<<=" binary
    ∷ operator "rS" ">>=" binary
    ∷ operator "eq" "==" binary
    ∷ operator "ne" "!=" binary
    ∷ operator "lt" "<" binary
    ∷ operator "gt" ">" binary
    ∷ operator "le" "<=" binary
    ∷ operator "ge" ">=" binary
    ∷ operator "nt" "!" unary
    ∷ operator "aa" "&&" binary
    ∷ operator "oo" "||" binary
    ∷ operator "pp" "++" unary
    ∷ operator "mm" "--" unary
    ∷ operator "cm" "," binary
    ∷ operator "pm" "->*" binary
    ∷ operator "pt" "->" binary
    ∷ operator "cl" "()" binary
    ∷ operator "ix" "[]" binary
    ∷ operator "qu" "?" ternary
    ∷ operator "aw" "co_await" unary
    ∷ operator "ss" "<=>" binary
    ∷ operator "st" "sizeof" unary
    ∷ operator "sz" "sizeof" unary
    ∷ []

pub record Abbrev : Type 0 where
  pub abbrev_name : List ℕ
  pub real_name : List ℕ

abbrev pair : String → String → Abbrev
pair a r = record { abbrev_name = codes a; real_name = codes r }

-- `kBuiltinTypeList`
abbrev pub builtin_type_list : List Abbrev
builtin_type_list =
    pair "v" "void"
    ∷ pair "w" "wchar_t"
    ∷ pair "b" "bool"
    ∷ pair "c" "char"
    ∷ pair "a" "signed char"
    ∷ pair "h" "unsigned char"
    ∷ pair "s" "short"
    ∷ pair "t" "unsigned short"
    ∷ pair "i" "int"
    ∷ pair "j" "unsigned int"
    ∷ pair "l" "long"
    ∷ pair "m" "unsigned long"
    ∷ pair "x" "long long"
    ∷ pair "y" "unsigned long long"
    ∷ pair "n" "__int128"
    ∷ pair "o" "unsigned __int128"
    ∷ pair "f" "float"
    ∷ pair "d" "double"
    ∷ pair "e" "long double"
    ∷ pair "g" "__float128"
    ∷ pair "z" "ellipsis"
    ∷ pair "Da" "auto"
    ∷ pair "Dc" "decltype(auto)"
    ∷ pair "Dd" "decimal64"
    ∷ pair "De" "decimal128"
    ∷ pair "Df" "decimal32"
    ∷ pair "Dh" "float16"
    ∷ pair "Di" "char32_t"
    ∷ pair "Ds" "char16_t"
    ∷ pair "Du" "char8_t"
    ∷ pair "Dn" "decltype(nullptr)"
    ∷ []

-- `kSubstitutionList`
abbrev pub substitution_list : List Abbrev
substitution_list =
    pair "St" ""
    ∷ pair "Sa" "allocator"
    ∷ pair "Sb" "basic_string"
    ∷ pair "Ss" "string"
    ∷ pair "Si" "istream"
    ∷ pair "So" "ostream"
    ∷ pair "Sd" "iostream"
    ∷ []
