-- ===== src/Lex/Token.antt =====
-- internal/lex/token.go. The kinds of the literals true, false and null and of the comparisons have longer
-- names, and an ERROR token carries the fault, which gives its message.
use quill_template_engine.Prelude.{ℕ, Bool, true, false, Bytes, codes}

-- The calls of errorf, with the arguments of their messages. `unfinished` is a scan that used up its rounds.
pub data Fault : Type 0 where
  unterminated_raw_string unterminated_single unterminated_double : Fault
  unterminated_interpolation unterminated_comment : Fault
  unterminated_verbatim missing_fence : Fault
  unterminated_fence : Bytes → Fault
  unexpected_byte : ℕ → Fault
  unfinished : Fault

pub data Kind : Type 0 where
  error : Fault → Kind
  eof text open_interp close_interp stmt block_open block_close stmt_end verbatim : Kind
  name int float string true_literal false_literal null_literal dot optdot comma : Kind
  colon lparen rparen lbracket rbracket lbrace rbrace optbrack pipe arrow typearrow : Kind
  assign equal not_equal less greater less_equal greater_equal spaceship plus minus : Kind
  star pow slash floordiv percent tilde range spread question coalesce elvis bang amp : Kind
  caret andand oror bitor3 : Kind

abbrev pub label : Kind → Bytes
label (error f) = codes "ERROR"
label eof = codes "EOF"
label text = codes "TEXT"
label open_interp = codes "OPEN_INTERP"
label close_interp = codes "CLOSE_INTERP"
label stmt = codes "STMT"
label block_open = codes "BLOCK_OPEN"
label block_close = codes "BLOCK_CLOSE"
label stmt_end = codes "STMT_END"
label verbatim = codes "VERBATIM"
label name = codes "NAME"
label int = codes "INT"
label float = codes "FLOAT"
label string = codes "STRING"
label true_literal = codes "TRUE"
label false_literal = codes "FALSE"
label null_literal = codes "NULL"
label dot = codes "DOT"
label optdot = codes "OPTDOT"
label comma = codes "COMMA"
label colon = codes "COLON"
label lparen = codes "LPAREN"
label rparen = codes "RPAREN"
label lbracket = codes "LBRACKET"
label rbracket = codes "RBRACKET"
label lbrace = codes "LBRACE"
label rbrace = codes "RBRACE"
label optbrack = codes "OPTBRACK"
label pipe = codes "PIPE"
label arrow = codes "ARROW"
label typearrow = codes "TYPEARROW"
label assign = codes "ASSIGN"
label equal = codes "EQ"
label not_equal = codes "NE"
label less = codes "LT"
label greater = codes "GT"
label less_equal = codes "LE"
label greater_equal = codes "GE"
label spaceship = codes "SPACESHIP"
label plus = codes "PLUS"
label minus = codes "MINUS"
label star = codes "STAR"
label pow = codes "POW"
label slash = codes "SLASH"
label floordiv = codes "FLOORDIV"
label percent = codes "PERCENT"
label tilde = codes "TILDE"
label range = codes "RANGE"
label spread = codes "SPREAD"
label question = codes "QUESTION"
label coalesce = codes "COALESCE"
label elvis = codes "ELVIS"
label bang = codes "BANG"
label amp = codes "AMP"
label caret = codes "CARET"
label andand = codes "ANDAND"
label oror = codes "OROR"
label bitor3 = codes "BITOR3"

pub data Trim : Type 0 where
  trim_none trim_hard trim_line trim_keep : Trim

pub data Quote : Type 0 where
  quote_none quote_single quote_double quote_backtick : Quote

pub record Token : Type 0 where
  pub kind : Kind
  pub text : Bytes
  pub line : ℕ
  pub col : ℕ
  pub trim_l : Trim
  pub trim_r : Trim
  pub quote : Quote

abbrev pub is_error : Kind → Bool
is_error (error f) = true
is_error _ = false
