-- ===== src/Scanner/BufferTests.antt =====
-- The scanner of Assig1 on a buffer that is too small for its input.
use c.Base.{
  ◌∷◌, streq, streq, length_zero, ℕ, ◌<◌, ◌≡◌, refl, true, false, none, some, [], arith, inl, inr,
  Bool-cases, Text, codes, length, drop, ltb, if◌then◌else◌,
}
use c.Base.Run.{Returns, returns}
use c.Scanner.{transition, Last, scan_token}
use c.Scanner.Longest.{IsText}
use c.Scanner.Match.{IsToken}
use c.Scanner.Buffer.{yy_buffer_normal, Buffer, yy_create_buffer, yy_get_next_buffer}
use c.Scanner.OnBuffer.{consume, scan_from, input}
use c.Scanner.Fits.{Fits, Refilled}
use c.Scanner.Fread.{IsFread}
use c.Scanner.Fill.{normal, yy_get_next_buffer_lem}
use c.Scanner.Same.{yy_create_buffer-Fits, scan_from-scan_token, scan_from-end}
use c.Scanner.Input.{IsInput, input-IsInput}
use c.Scanner.Actions.{Scan, yylex}
use c.Scanner.OnFile.{yylex_here}
use c.Scanner.Whole.{yylex_here-yylex}
use c.Scanner.Tables.{yy_accept, yy_ec, yy_meta, yy_base, yy_def, yy_nxt, yy_chk}

-- an fread that gives whatever is there
abbrev read_all : ℕ → Text → ℕ
read_all max_size unread = if ltb max_size (length unread) then max_size else length unread

read_all-IsFread : IsFread read_all
read_all-IsFread = record {
  at_most = λ max_size unread. elim (Bool-cases (ltb max_size (length unread))) [
    | inl x ↦ rw x (omega arith)
    | inr x ↦ rw x (ground arith)
  ];
  from = λ max_size unread. elim (Bool-cases (ltb max_size (length unread))) [
    | inl x ↦ rw x (ground arith)
    | inr x ↦ rw x (omega arith)
  ];
  gives = λ max_size unread pos z. length_zero unread (ground arith);
}

-- an identifier that is longer than the buffer
abbrev long_name : Text
long_name = codes "abcdef"

-- a buffer of four characters
abbrev small_buffer : Buffer
small_buffer = yy_create_buffer false long_name 4

abbrev no_file : Buffer
no_file = yy_create_buffer true [] 4

abbrev no_last : Last
no_last = record { state = 0; cpos = 0 }

byte : (b : ℕ) → 96 < b → b < 128 → (0 < b) × (b < 256)
byte b lt le = (omega arith, omega arith)

long_name-IsText : IsText long_name
long_name-IsText = (
  byte 97 (omega arith) (omega arith),
  (
    byte 98 (omega arith) (omega arith),
    (
      byte 99 (omega arith) (omega arith),
      (
        byte 100 (omega arith) (omega arith),
        (byte 101 (omega arith) (omega arith), (byte 102 (omega arith) (omega arith), tt)),
      ),
    ),
  ),
)

small_buffer-Fits : Fits long_name small_buffer
small_buffer-Fits = yy_create_buffer-Fits false long_name 4 (omega arith) (omega arith)

no_file-Fits : Fits [] no_file
no_file-Fits = yy_create_buffer-Fits true [] 4 (omega arith) (omega arith)

-- the buffer has been doubled when the name has been read
scan_small :
    Returns
      (λ r.
        (r.0 ≡ some (8, 6)) × (r.2.yy_buf_size ≡ 8) × (r.2.ahead ≡ long_name) × (r.2.unread ≡ []))
      (scan_from read_all 7 small_buffer 1 0 no_last)
unfolding scan_from yy_create_buffer transition yy_accept yy_ec yy_meta yy_base yy_def yy_nxt yy_chk
scan_small = returns (refl, refl, refl, refl)

scan_from-scan_token_example :
    Returns
      (λ r.
        (token : ℕ × ℕ) × (r.0 ≡ some token)
        × Returns (λ q. q.0 ≡ some token) (scan_token long_name no_last)
        × IsToken long_name token
        × Fits (drop token.1 long_name) (consume token.1 r.2))
      (scan_from read_all 7 small_buffer 1 0 no_last)
unfolding yy_create_buffer
scan_from-scan_token_example =
    scan_from-scan_token read_all 7 97 (codes "bcdef") small_buffer no_last read_all-IsFread
      (omega arith) long_name-IsText small_buffer-Fits (omega arith)

scan_from-end_example :
    Returns (λ r. (r.0 ≡ none) × Fits [] r.2) (scan_from read_all 1 no_file 1 0 no_last)
scan_from-end_example = scan_from-end read_all 0 no_file no_last read_all-IsFread no_file-Fits

-- the first three characters are in the buffer
abbrev half_read : Buffer
half_read = record {
  yy_buf_size = 4;
  yy_n_chars = 3;
  yy_is_our_buffer = true;
  yy_is_interactive = false;
  yy_fill_buffer = true;
  yy_buffer_status = yy_buffer_normal;
  start = 0;
  ahead = codes "abc";
  unread = codes "def";
}

half_read-Fits : Fits long_name half_read
half_read-Fits = record {
  rest = refl;
  ours = refl;
  fill = refl;
  room = omega arith;
  size = omega arith;
  since = tt;
}

yy_get_next_buffer_lem_example :
    Returns
      (Refilled long_name (codes "abc") (codes "def"))
      (yy_get_next_buffer read_all 4 half_read)
yy_get_next_buffer_lem_example =
    yy_get_next_buffer_lem read_all long_name 4 half_read read_all-IsFread half_read-Fits
      (λ some_left. normal) (omega arith) (omega arith)

input-IsInput_example : Returns (IsInput long_name 3 (codes "def")) (input read_all 3 half_read)
input-IsInput_example =
    input-IsInput read_all long_name 3 half_read read_all-IsFread (omega arith) half_read-Fits
      (λ some_left. normal) (omega arith)

abbrev no_tokens : Scan
no_tokens = record {
  linenumber = 0;
  tokens = 0;
  comments = 0;
  symtab = [];
  comments_arr = [];
  output = [];
}

-- a comment that does not fit the buffer
yylex_comment :
    Returns
      (λ (r : Scan). (r.comments_arr ≡ codes "/*ab*/" ∷ []) × (r.tokens ≡ 2))
      (yylex_here read_all
        (λ cmp ids. ids)
        9
        (yy_create_buffer false (codes "/*ab*/x") 3)
        no_last
        no_tokens)
unfolding yylex_here yy_create_buffer consume streq transition yy_accept yy_ec yy_meta yy_base
    yy_def yy_nxt yy_chk
yylex_comment = returns (refl, refl)

yylex_here-yylex_example :
    yylex_here read_all (λ cmp ids. ids) 7 small_buffer no_last no_tokens
    ≡ yylex (λ cmp ids. ids) 7 long_name no_last no_tokens
yylex_here-yylex_example =
    yylex_here-yylex read_all (λ cmp ids. ids) 7 long_name small_buffer no_last no_last no_tokens
      read_all-IsFread (omega arith) long_name-IsText small_buffer-Fits (omega arith)
