-- ===== src/Trans/Emit/Words.antt =====
-- trans/src/emit.rs: the texts that statements are made of.
use nmerkar.Base.{
  ℕ, Bool, true, false, List, [], ◌∷◌, ◌++◌, Option, some, Text, codes, if◌then◌else◌,
}
use nmerkar.Trans.Emit.{ListCtx, fn_body, label_body, Buf, empty_buf, add_code, add_labels}
use nmerkar.Base.Decimal.{decimal}

abbrev pub builtins : List Text
builtins =
    codes "argc"
    ∷ codes "argv"
    ∷ codes "__byte"
    ∷ codes "NULL"
    ∷ codes "EOF"
    ∷ codes "stdout"
    ∷ codes "stdin"
    ∷ codes "stderr"
    ∷ []

abbrev pub builtin_message : Text → Text
builtin_message name = codes "cannot declare builtin '" ++ (name ++ codes "'")

abbrev pub named : Text → ℕ → Text
named prefix n = prefix ++ decimal n

-- The definition of a label: its name, the code, and `0 ret` unless the code ends in a `return`.
abbrev pub label_text : Text → Text → Bool → Text
label_text name code terminated =
    name ++ (codes ":\n" ++ (code ++ (if terminated then [] else codes "0 ret\n")))

abbrev pub return_words : Bool → ListCtx → Text × Bool
return_words true l = (codes "'exit\n", false)
return_words false label_body = (codes "rv! 1 fr! 0 ret\n", true)
return_words false fn_body = (codes "rv! 1 fr! consume consume\n", false)

abbrev pub guard_words : ℕ → ℕ → Text
guard_words c b =
    codes "fr " ++ (named (codes "c") c ++ (named (codes " b") b ++ codes " if_else\n"))

-- What `hoisted_guards` gets: the label of the rest of a list, and the one that does nothing.
abbrev pub guard_labels : ℕ → ℕ → Buf × Bool → Text
guard_labels c b r =
    label_text (named (codes "b") b) r.0.code r.1
    ++ (r.0.labels ++ (named (codes "c") c ++ codes ":\n0 ret\n"))

abbrev pub continue_words : List (Option Text) → Text
continue_words (some inc ∷ ls) = codes "1 " ++ (inc ++ codes " if continue\n")
continue_words _ = codes "continue\n"

abbrev pub while_words : ℕ → ℕ → Text
while_words c b = named (codes "c") c ++ (named (codes " b") b ++ codes " while\n")

abbrev pub body_labels : Text → Buf × Bool → Text
body_labels name r = label_text name r.0.code r.1 ++ r.0.labels

-- The definition of the condition of a loop: its labels, then its code behind `fr not`.
abbrev pub cond_labels : ℕ → Text → Text → Buf → Text
cond_labels c before after b =
    b.labels
    ++ (named (codes "c") c
        ++ (codes ":\nfr not " ++ (before ++ (b.code ++ (after ++ codes "and ret\n")))))

-- What `hoisted` gets: the label of the last part of a `for`.
abbrev pub post_labels : ℕ → Buf → Text
post_labels n q = q.labels ++ (named (codes "n") n ++ (codes ":\n" ++ (q.code ++ codes "0 ret\n")))

-- What the body of a `for` ends with.
abbrev pub with_post : Text → Buf × Bool → Buf × Bool
with_post inc r = (add_code (codes "fr not " ++ (inc ++ codes " if\n")) r.0, r.1)

abbrev pub if_out : ℕ → Buf × Bool → Buf → Buf
if_out t r b =
    add_labels (body_labels (named (codes "i") t) r)
      (add_code (named (codes "i") t ++ codes " if\n") b)

abbrev pub if_else_out : ℕ → ℕ → Buf × Bool → Buf × Bool → Buf → Buf
if_else_out t f r q b =
    add_labels (body_labels (named (codes "i") t) r ++ body_labels (named (codes "e") f) q)
      (add_code (named (codes "i") t ++ (named (codes " e") f ++ codes " if_else\n")) b)

abbrev pub while_out : ℕ → ℕ → Buf → Buf × Bool → Buf → Buf
while_out c b k r buf =
    add_code (while_words c b)
      (add_labels (cond_labels c [] [] k ++ body_labels (named (codes "b") b) r) buf)

-- The code that a `do` body starts with.
abbrev pub do_start : ℕ → Buf
do_start df = add_code (named (codes "0 df") df ++ codes "!\n") empty_buf

abbrev pub do_while_out : ℕ → ℕ → ℕ → Buf → Buf × Bool → Buf → Buf
do_while_out df c b k r buf = add_code (while_words c b) (
    add_labels
      (body_labels (named (codes "b") b) r
        ++ cond_labels c (named (codes "df") df ++ codes " ") (codes "or ") k)
      (add_code (named (codes "1 df") df ++ codes "!\n") buf))
