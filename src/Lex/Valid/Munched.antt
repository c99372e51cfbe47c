-- ===== src/Lex/Valid/Munched.antt =====
-- internal/lex/code.go: the operators, each of one byte or more.
use quill_template_engine.Prelude.{
  [], ℕ, ◌≤◌, Bool, true, false, Option, none, some, Bytes, codes, if◌then◌else◌, ◌==◌, ◌≡◌, refl,
  arith,
}
use quill_template_engine.Lex.Cursor.{has}
use quill_template_engine.Lex.Code.{Operator, munch}
use quill_template_engine.Lex.Valid.{is_plain, Spells}

-- An operator is a plain token of one byte or more.
abbrev pub Munched : Option Operator → Type 0
Munched none = Unit
Munched (some o) = (is_plain o.kind ≡ true) × (1 ≤ o.width) × ((s : Bytes) → Spells o.kind [] s)

if-Munched :
    (b : Bool) (x y : Option Operator) → Munched x → Munched y → Munched (if b then x else y)
if-Munched true x y h k = h
if-Munched false x y h k = k

pub munch-Munched : (c : ℕ) (s : Bytes) → Munched (munch c s)
unfolding munch
munch-Munched c s =
    (if-Munched (c == b'(') _ _ (refl, omega arith, λ r. tt)
      (if-Munched (c == b')') _ _ (refl, omega arith, λ r. tt)
        (if-Munched (c == b'[') _ _ (refl, omega arith, λ r. tt)
          (if-Munched (c == b']') _ _ (refl, omega arith, λ r. tt)
            (if-Munched (c == b'{') _ _ (refl, omega arith, λ r. tt)
              (if-Munched (c == b'}') _ _ (refl, omega arith, λ r. tt)
                (if-Munched (c == b'.') _ _
                  (if-Munched (has (codes "...") s) _ _ (refl, omega arith, λ r. tt)
                    (if-Munched (has (codes "..") s) _ _ (refl, omega arith, λ r. tt)
                      (refl, omega arith, λ r. tt)))
                  (if-Munched (c == b',') _ _ (refl, omega arith, λ r. tt)
                    (if-Munched (c == b':') _ _ (refl, omega arith, λ r. tt)
                      (if-Munched (c == b'|') _ _
                        (if-Munched (has (codes "|||") s) _ _ (refl, omega arith, λ r. tt)
                          (if-Munched (has (codes "||") s) _ _ (refl, omega arith, λ r. tt)
                            (refl, omega arith, λ r. tt)))
                        (if-Munched (c == b'=') _ _
                          (if-Munched (has (codes "==") s) _ _ (refl, omega arith, λ r. tt)
                            (if-Munched (has (codes "=>") s) _ _ (refl, omega arith, λ r. tt)
                              (refl, omega arith, λ r. tt)))
                          (if-Munched (c == b'!') _ _
                            (if-Munched (has (codes "!=") s) _ _ (refl, omega arith, λ r. tt)
                              (refl, omega arith, λ r. tt))
                            (if-Munched (c == b'<') _ _
                              (if-Munched (has (codes "<=>") s) _ _ (refl, omega arith, λ r. tt)
                                (if-Munched (has (codes "<=") s) _ _ (refl, omega arith, λ r. tt)
                                  (refl, omega arith, λ r. tt)))
                              (if-Munched (c == b'>') _ _
                                (if-Munched (has (codes ">=") s) _ _ (refl, omega arith, λ r. tt)
                                  (refl, omega arith, λ r. tt))
                                (if-Munched (c == b'+') _ _ (refl, omega arith, λ r. tt)
                                  (if-Munched (c == b'-') _ _
                                    (if-Munched (has (codes "->") s) _ _
                                      (refl, omega arith, λ r. tt) (refl, omega arith, λ r. tt))
                                    (if-Munched (c == b'*') _ _
                                      (if-Munched (has (codes "**") s) _ _
                                        (refl, omega arith, λ r. tt) (refl, omega arith, λ r. tt))
                                      (if-Munched (c == b'/') _ _
                                        (if-Munched (has (codes "//") s) _ _
                                          (refl, omega arith, λ r. tt) (refl, omega arith, λ r. tt))
                                        (if-Munched (c == b'%') _ _ (refl, omega arith, λ r. tt)
                                          (if-Munched (c == b'~') _ _ (refl, omega arith, λ r. tt)
                                            (if-Munched (c == b'?') _ _
                                              (if-Munched (has (codes "??") s) _ _
                                                (refl, omega arith, λ r. tt)
                                                (if-Munched (has (codes "?:") s) _ _
                                                  (refl, omega arith, λ r. tt)
                                                  (if-Munched (has (codes "?.") s) _ _
                                                    (refl, omega arith, λ r. tt)
                                                    (if-Munched (has (codes "?[") s) _ _
                                                      (refl, omega arith, λ r. tt)
                                                      (refl, omega arith, λ r. tt)))))
                                              (if-Munched (c == b'&') _ _
                                                (if-Munched (has (codes "&&") s) _ _
                                                  (refl, omega arith, λ r. tt)
                                                  (refl, omega arith, λ r. tt))
                                                (if-Munched (c == b'^') _ _
                                                  (refl, omega arith, λ r. tt)
                                                  tt)))))))))))))))))))))))
