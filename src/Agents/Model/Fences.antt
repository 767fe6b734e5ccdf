-- ===== src/Agents/Model/Fences.antt =====
-- About internal/agents/model/unfence.go: answers in a code fence.
use mathlib.Core.List.{reverse-append, reverse-reverse, append_assoc}
use rojo.Base.{
  Bytes, Bool, true, false, [], ◌∷◌, ◌++◌, some, ◌≡◌, refl, sym, ◌∙◌, ap, arith, cut_byte,
  contains_byte, is_empty, reverse, trim_left, trim_reversed, trim_space, if◌then◌else◌,
}
use rojo.Agents.Model.{unfence, fence, before_last, drop_line, drop_close}

-- A line end behind a text that is not empty.
abbrev end_line : Bytes → Bytes
end_line s = if is_empty s then [] else s ++ 10 ∷ []

end_line-if :
    (x y z : Bool) (p q r t : Bytes)
    → (if x then end_line p else if y then end_line q else if z then end_line r else end_line t)
      ≡ end_line (if x then p else if y then q else if z then r else t)
end_line-if true y z p q r t = refl
end_line-if false true z p q r t = refl
end_line-if false false true p q r t = refl
end_line-if false false false p q r t = refl

trim_left-snoc : (s : Bytes) → trim_left (s ++ 10 ∷ []) ≡ end_line (trim_left s)
unfolding trim_left
trim_left-snoc [] = refl
trim_left-snoc (a ∷ []) = ground arith
trim_left-snoc (a ∷ b ∷ []) = ground arith
trim_left-snoc (a ∷ b ∷ c ∷ s) =
    rw (trim_left-snoc (b ∷ c ∷ s), trim_left-snoc (c ∷ s), trim_left-snoc s)
      (end_line-if _ _ _ (trim_left (b ∷ c ∷ s)) (trim_left (c ∷ s)) (trim_left s) (a ∷ b ∷ c ∷ s))

trim_reversed-cons : (s : Bytes) → trim_reversed (10 ∷ s) ≡ trim_reversed s
unfolding trim_reversed
trim_reversed-cons [] = refl
trim_reversed-cons (b ∷ []) = refl
trim_reversed-cons (b ∷ c ∷ s) = refl

end_trimmed :
    (t : Bytes)
    → reverse (trim_reversed (reverse (end_line t))) ≡ reverse (trim_reversed (reverse t))
end_trimmed [] = refl
end_trimmed (b ∷ t) =
    rw (reverse-append (b ∷ t) (10 ∷ [])) (ap reverse (trim_reversed-cons (reverse (b ∷ t))))

trim_space-snoc : (s : Bytes) → trim_space (s ++ 10 ∷ []) ≡ trim_space s
unfolding trim_space
trim_space-snoc s = rw (trim_left-snoc s) (end_trimmed (trim_left s))

trim_space-fenced : (x : Bytes) → trim_space (fence ++ (x ++ fence)) ≡ fence ++ (x ++ fence)
unfolding trim_space trim_left trim_reversed
trim_space-fenced x =
    let e : reverse (fence ++ (x ++ fence)) ≡ fence ++ reverse (fence ++ x) =
      rw (← append_assoc fence x fence) (reverse-append (fence ++ x) fence) in
    ap (λ r. reverse (trim_reversed r)) e
    ∙ ap reverse (sym e)
    ∙ reverse-reverse (fence ++ (x ++ fence))

cut_byte-append :
    (p r : Bytes) → contains_byte 10 p ≡ false → cut_byte 10 (p ++ 10 ∷ r) ≡ some (p, r)
unfolding cut_byte contains_byte
cut_byte-append [] r h = refl
cut_byte-append (b ∷ p) r h = ground (arith, cut_byte-append p r)

before_last-append : (x : Bytes) → before_last fence (x ++ fence) ≡ some x
unfolding before_last
before_last-append [] = refl
before_last-append (b ∷ x) = rw (before_last-append x) refl

tag_lacks : (tag : Bytes) → contains_byte 10 tag ≡ false → contains_byte 10 (fence ++ tag) ≡ false
unfolding contains_byte
tag_lacks tag h = h

drop_line-append : (p r : Bytes) → contains_byte 10 p ≡ false → drop_line (p ++ 10 ∷ r) ≡ r
unfolding drop_line
drop_line-append p r h = rw (cut_byte-append p r h, drop_line) refl

drop_close-append : (x : Bytes) → drop_close (x ++ fence) ≡ x
unfolding drop_close
drop_close-append x = rw (before_last-append x, drop_close) refl

-- A text in a code fence, with any tag behind its opening, is read as the text without its outer white
-- space, whatever fences the text itself holds.
pub unfence-fenced :
    (tag body : Bytes)
    → contains_byte 10 tag ≡ false
    → unfence (fence ++ (tag ++ 10 ∷ (body ++ 10 ∷ fence))) ≡ trim_space body
unfolding unfence
unfence-fenced tag body h =
    let whole : fence ++ ((tag ++ 10 ∷ (body ++ 10 ∷ [])) ++ fence)
        ≡ fence ++ (tag ++ 10 ∷ (body ++ 10 ∷ fence)) =
      simp (append_assoc) in
    let trimmed = trim_space-fenced (tag ++ 10 ∷ (body ++ 10 ∷ [])) in
    let lined = drop_line-append (fence ++ tag) (body ++ 10 ∷ fence) (tag_lacks tag h) in
    let closed : drop_close (body ++ 10 ∷ fence) ≡ body ++ 10 ∷ [] =
      rw (← append_assoc body (10 ∷ []) fence) (drop_close-append (body ++ 10 ∷ [])) in
    rw (rw whole at trimmed, unfence) (rw (lined, closed) (trim_space-snoc body))
