-- ===== src/Token.antt =====
-- The tokens of include/lexer.h and src/parser/lexer.c.
pub mod Keywords
use schema_compare_c.Base.{ℕ, Bool, ◌==◌}
use schema_compare_c.Base.Int.{ℤ}
use schema_compare_c.Text.{Bytes, codes}

-- A constructor keeps the prefix of the source, since many of the words are taken.
pub data TokenType : Type 0 where
  token_create token_alter token_table token_temporary token_temp token_unlogged token_if :
      TokenType
  token_not token_exists token_of token_partition token_for token_values token_in token_from :
      TokenType
  token_to token_with token_modulus token_remainder token_default token_constraint token_check :
      TokenType
  token_unique token_primary token_key token_references token_foreign token_null : TokenType
  token_generated token_always token_as token_identity token_by token_stored token_virtual :
      TokenType
  token_exclude token_match token_full token_partial token_simple token_deferrable : TokenType
  token_initially token_deferred token_immediate token_enforced token_cascade token_restrict :
      TokenType
  token_action token_set token_no token_on token_delete token_update token_commit : TokenType
  token_preserve token_drop token_rows token_collate token_storage token_plain token_external :
      TokenType
  token_extended token_main token_compression token_precision token_inherits token_like : TokenType
  token_including token_excluding token_using token_where token_tablespace token_without : TokenType
  token_oids token_global token_local token_range token_list token_hash token_minvalue : TokenType
  token_maxvalue token_increment token_start token_cache token_cycle token_owned token_nulls :
      TokenType
  token_distinct token_first token_last token_asc token_desc token_include token_overlaps :
      TokenType
  token_period token_no_inherit token_inherit token_comments token_constraints token_defaults :
      TokenType
  token_indexes token_statistics token_all token_type token_enum token_subtype token_input :
      TokenType
  token_output token_receive token_send token_variable token_internallength token_alignment :
      TokenType
  token_element token_delimiter token_preferred token_collatable token_canonical : TokenType
  token_multirange token_typmod_in token_typmod_out token_analyze token_passedbyvalue : TokenType
  token_identifier token_string_literal token_number token_lparen token_rparen token_comma :
      TokenType
  token_semicolon token_dot token_equal token_coloncolon token_lbracket token_rbracket : TokenType
  token_eof token_error : TokenType

-- The values that C gives to the members.
abbrev pub token_type_value : TokenType → ℕ
token_type_value token_create = 0
token_type_value token_alter = 1
token_type_value token_table = 2
token_type_value token_temporary = 3
token_type_value token_temp = 4
token_type_value token_unlogged = 5
token_type_value token_if = 6
token_type_value token_not = 7
token_type_value token_exists = 8
token_type_value token_of = 9
token_type_value token_partition = 10
token_type_value token_for = 11
token_type_value token_values = 12
token_type_value token_in = 13
token_type_value token_from = 14
token_type_value token_to = 15
token_type_value token_with = 16
token_type_value token_modulus = 17
token_type_value token_remainder = 18
token_type_value token_default = 19
token_type_value token_constraint = 20
token_type_value token_check = 21
token_type_value token_unique = 22
token_type_value token_primary = 23
token_type_value token_key = 24
token_type_value token_references = 25
token_type_value token_foreign = 26
token_type_value token_null = 27
token_type_value token_generated = 28
token_type_value token_always = 29
token_type_value token_as = 30
token_type_value token_identity = 31
token_type_value token_by = 32
token_type_value token_stored = 33
token_type_value token_virtual = 34
token_type_value token_exclude = 35
token_type_value token_match = 36
token_type_value token_full = 37
token_type_value token_partial = 38
token_type_value token_simple = 39
token_type_value token_deferrable = 40
token_type_value token_initially = 41
token_type_value token_deferred = 42
token_type_value token_immediate = 43
token_type_value token_enforced = 44
token_type_value token_cascade = 45
token_type_value token_restrict = 46
token_type_value token_action = 47
token_type_value token_set = 48
token_type_value token_no = 49
token_type_value token_on = 50
token_type_value token_delete = 51
token_type_value token_update = 52
token_type_value token_commit = 53
token_type_value token_preserve = 54
token_type_value token_drop = 55
token_type_value token_rows = 56
token_type_value token_collate = 57
token_type_value token_storage = 58
token_type_value token_plain = 59
token_type_value token_external = 60
token_type_value token_extended = 61
token_type_value token_main = 62
token_type_value token_compression = 63
token_type_value token_precision = 64
token_type_value token_inherits = 65
token_type_value token_like = 66
token_type_value token_including = 67
token_type_value token_excluding = 68
token_type_value token_using = 69
token_type_value token_where = 70
token_type_value token_tablespace = 71
token_type_value token_without = 72
token_type_value token_oids = 73
token_type_value token_global = 74
token_type_value token_local = 75
token_type_value token_range = 76
token_type_value token_list = 77
token_type_value token_hash = 78
token_type_value token_minvalue = 79
token_type_value token_maxvalue = 80
token_type_value token_increment = 81
token_type_value token_start = 82
token_type_value token_cache = 83
token_type_value token_cycle = 84
token_type_value token_owned = 85
token_type_value token_nulls = 86
token_type_value token_distinct = 87
token_type_value token_first = 88
token_type_value token_last = 89
token_type_value token_asc = 90
token_type_value token_desc = 91
token_type_value token_include = 92
token_type_value token_overlaps = 93
token_type_value token_period = 94
token_type_value token_no_inherit = 95
token_type_value token_inherit = 96
token_type_value token_comments = 97
token_type_value token_constraints = 98
token_type_value token_defaults = 99
token_type_value token_indexes = 100
token_type_value token_statistics = 101
token_type_value token_all = 102
token_type_value token_type = 103
token_type_value token_enum = 104
token_type_value token_subtype = 105
token_type_value token_input = 106
token_type_value token_output = 107
token_type_value token_receive = 108
token_type_value token_send = 109
token_type_value token_variable = 110
token_type_value token_internallength = 111
token_type_value token_alignment = 112
token_type_value token_element = 113
token_type_value token_delimiter = 114
token_type_value token_preferred = 115
token_type_value token_collatable = 116
token_type_value token_canonical = 117
token_type_value token_multirange = 118
token_type_value token_typmod_in = 119
token_type_value token_typmod_out = 120
token_type_value token_analyze = 121
token_type_value token_passedbyvalue = 122
token_type_value token_identifier = 123
token_type_value token_string_literal = 124
token_type_value token_number = 125
token_type_value token_lparen = 126
token_type_value token_rparen = 127
token_type_value token_comma = 128
token_type_value token_semicolon = 129
token_type_value token_dot = 130
token_type_value token_equal = 131
token_type_value token_coloncolon = 132
token_type_value token_lbracket = 133
token_type_value token_rbracket = 134
token_type_value token_eof = 135
token_type_value token_error = 136

-- `a == b`
abbrev pub same_type : TokenType → TokenType → Bool
same_type a b = token_type_value a == token_type_value b

-- A lexeme that an allocation gives is never NULL. The column is an `int`, which the length of a
-- token over several lines can take below zero.
pub record Token : Type 0 where
  pub type : TokenType
  pub lexeme : Bytes
  pub length : ℕ
  pub line : ℕ
  pub column : ℤ

unfoldable pub token_type_name : TokenType → Bytes
token_type_name token_create = codes "CREATE"
token_type_name token_table = codes "TABLE"
token_type_name token_identifier = codes "IDENTIFIER"
token_type_name token_string_literal = codes "STRING"
token_type_name token_number = codes "NUMBER"
token_type_name token_lparen = codes "("
token_type_name token_rparen = codes ")"
token_type_name token_comma = codes ","
token_type_name token_semicolon = codes ";"
token_type_name token_eof = codes "EOF"
token_type_name token_error = codes "ERROR"
token_type_name _ = codes "UNKNOWN"
