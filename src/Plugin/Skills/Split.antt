-- ===== src/Plugin/Skills/Split.antt =====
-- internal/plugin/manager.go: how a SKILL.md file is cut.
use streamcore_server.Base.{
  List, Option, Text, [], ap, codes, false, is_empty, refl, true, ◌++◌, ◌∙◌, ◌∷◌, ◌≡◌,
}
use mathlib.Core.List.{append_assoc, append-nil}
use streamcore_server.Plugin.Skills.{
  Skill, Scan, is_fence, scan_line, scan_lines, new_scan, with_content, parse_skill,
}

-- No line of the list is a fence.
abbrev pub Unfenced : List Text → Type 0
Unfenced [] = Unit
Unfenced (l ∷ ls) = (is_fence l ≡ false) × Unfenced ls

-- The lines, each with its end.
abbrev pub unlines : List Text → Text
unlines [] = []
unlines (l ∷ ls) = l ++ (codes "\n" ++ unlines ls)

outside : (l : Text) → is_fence l ≡ false → scan_line new_scan l ≡ new_scan
unfolding scan_line
outside l f = rw f refl

inside :
    (l t : Text)
    → is_fence l ≡ false
    → scan_line
        (record { in_frontmatter = true; frontmatter_done = false; frontmatter = t; body = [] })
        l
      ≡ record {
        in_frontmatter = true;
        frontmatter_done = false;
        frontmatter = t ++ (l ++ codes "\n");
        body = [];
      }
unfolding scan_line
inside l t f = rw f refl

scan_before :
    (ls rest : List Text)
    → Unfenced ls
    → scan_lines new_scan (ls ++ rest) ≡ scan_lines new_scan rest
unfolding scan_lines scan_line
scan_before [] rest u = refl
scan_before (l ∷ ls) rest (f, u) =
    ap (λ (s : Scan). scan_lines s (ls ++ rest)) (outside l f) ∙ scan_before ls rest u

scan_front :
    (ls rest : List Text) (t : Text)
    → Unfenced ls
    → scan_lines
        (record { in_frontmatter = true; frontmatter_done = false; frontmatter = t; body = [] })
        (ls ++ rest)
      ≡ scan_lines
          (record {
            in_frontmatter = true;
            frontmatter_done = false;
            frontmatter = t ++ unlines ls;
            body = [];
          })
          rest
unfolding scan_lines scan_line
scan_front [] rest t u = rw (append-nil t) refl
scan_front (l ∷ ls) rest t (f, u) =
    ap (λ (s : Scan). scan_lines s (ls ++ rest)) (inside l t f)
    ∙ scan_front ls rest (t ++ (l ++ codes "\n")) u
    ∙ ap
        (λ (x : Text).
          scan_lines
            (record { in_frontmatter = true; frontmatter_done = false; frontmatter = x; body = [] })
            rest)
        (append_assoc t (l ++ codes "\n") (unlines ls)
          ∙ ap (λ (x : Text). t ++ x) (append_assoc l (codes "\n") (unlines ls)))

scan_body :
    (ls : List Text) (front t : Text)
    → scan_lines
        (record { in_frontmatter = false; frontmatter_done = true; frontmatter = front; body = t })
        ls
      ≡ record {
        in_frontmatter = false;
        frontmatter_done = true;
        frontmatter = front;
        body = t ++ unlines ls;
      }
unfolding scan_lines scan_line
scan_body [] front t = rw (append-nil t) refl
scan_body (l ∷ ls) front t =
    scan_body ls front (t ++ (l ++ codes "\n"))
    ∙ ap
        (λ (x : Text). record {
          in_frontmatter = false;
          frontmatter_done = true;
          frontmatter = front;
          body = x;
        })
        (append_assoc t (l ++ codes "\n") (unlines ls)
          ∙ ap (λ (x : Text). t ++ x) (append_assoc l (codes "\n") (unlines ls)))

opened :
    (o : Text) (rest : List Text)
    → is_fence o ≡ true
    → scan_lines new_scan (o ∷ rest)
      ≡ scan_lines
          (record { in_frontmatter = true; frontmatter_done = false; frontmatter = []; body = [] })
          rest
unfolding scan_lines scan_line
opened o rest e = rw e refl

closed :
    (c : Text) (rest : List Text) (t : Text)
    → is_fence c ≡ true
    → scan_lines
        (record { in_frontmatter = true; frontmatter_done = false; frontmatter = t; body = [] })
        (c ∷ rest)
      ≡ scan_lines
          (record { in_frontmatter = false; frontmatter_done = true; frontmatter = t; body = [] })
          rest
unfolding scan_lines scan_line
closed c rest t e = rw e refl

not_empty : (first rest : Text) → is_empty (first ++ (codes "\n" ++ rest)) ≡ false
not_empty [] rest = refl
not_empty (x ∷ first) rest = refl

-- A file whose first fence and next fence stand so is cut there: what is before the first fence is dropped, what is between
-- them is the frontmatter, and all that follows is the content, later fences included, without the white space around
-- it. The frontmatter has a line.
pub parse_skill_cuts :
    (read : Text → Option Skill) (before front body : List Text)
    (first open_fence close_fence : Text)
    → Unfenced before
    → Unfenced (first ∷ front)
    → is_fence open_fence ≡ true
    → is_fence close_fence ≡ true
    → parse_skill read (before ++ (open_fence ∷ ((first ∷ front) ++ (close_fence ∷ body))))
      ≡ with_content (unlines body) (read (unlines (first ∷ front)))
unfolding parse_skill
parse_skill_cuts read before front body first o c ub uf eo ec =
    let e : scan_lines new_scan (before ++ (o ∷ ((first ∷ front) ++ (c ∷ body)))) ≡ record {
      in_frontmatter = false;
      frontmatter_done = true;
      frontmatter = unlines (first ∷ front);
      body = unlines body;
    } =
      scan_before before (o ∷ ((first ∷ front) ++ (c ∷ body))) ub
      ∙ opened o ((first ∷ front) ++ (c ∷ body)) eo
      ∙ scan_front (first ∷ front) (c ∷ body) [] uf
      ∙ closed c body (unlines (first ∷ front)) ec
      ∙ scan_body body (unlines (first ∷ front)) [] in
    rw (e, not_empty first (unlines front)) refl
