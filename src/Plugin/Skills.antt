-- ===== src/Plugin/Skills.antt =====
-- parseSkill and SkillsPrompt of internal/plugin/manager.go, over the lines that bufio.Scanner yields.
-- What yaml.Unmarshal reads of the frontmatter is a parameter; none is an error.
pub mod Split
use streamcore_server.Base.{
  Bool, List, Option, Text, [], codes, false, if◌then◌else◌, is_empty, none, not, some, text_eq,
  true, ◌&&◌, ◌++◌, ◌∷◌,
}
use streamcore_server.Strings.{trim_space, join}

pub record Skill : Type 0 where
  pub name : Text
  pub description : Text
  pub triggers : List Text
  pub content : Text

-- Where the scan is, with what it has read.
pub record Scan : Type 0 where
  pub in_frontmatter : Bool
  pub frontmatter_done : Bool
  pub frontmatter : Text
  pub body : Text

unfoldable pub is_fence : Text → Bool
is_fence line = text_eq (trim_space line) (codes "---")

unfoldable pub scan_line : Scan → Text → Scan
unfolding is_fence
scan_line s line =
    if not s.frontmatter_done && is_fence line
    then (if not s.in_frontmatter
        then record s { in_frontmatter = true }
        else record s { in_frontmatter = false; frontmatter_done = true })
    else if s.in_frontmatter
    then record s { frontmatter = s.frontmatter ++ (line ++ codes "\n") }
    else if s.frontmatter_done
    then record s { body = s.body ++ (line ++ codes "\n") }
    else s

unfoldable pub scan_lines : Scan → List Text → Scan
unfolding scan_line
scan_lines s [] = s
scan_lines s (l ∷ ls) = scan_lines (scan_line s l) ls

abbrev pub new_scan : Scan
new_scan = record { in_frontmatter = false; frontmatter_done = false; frontmatter = []; body = [] }

pub data SkillError : Type 0 where
  no_frontmatter bad_frontmatter no_skill_name : SkillError

pub data Parsed : Type 0 where
  skill : Skill → Parsed
  failed : SkillError → Parsed

unfoldable pub with_content : Text → Option Skill → Parsed
with_content body none = failed bad_frontmatter
with_content body (some s) =
    if is_empty s.name then failed no_skill_name else skill (record s { content = trim_space body })

unfoldable pub parse_skill : (Text → Option Skill) → List Text → Parsed
unfolding scan_lines with_content
parse_skill read lines =
    let s = scan_lines new_scan lines in
    if is_empty s.frontmatter
    then failed no_frontmatter
    else with_content s.body (read s.frontmatter)

-- One skill of the prompt.
unfoldable pub skill_prompt : Skill → Text
skill_prompt s =
    (codes "\n## Skill: " ++ (s.name ++ codes "\n"))
    ++ ((if is_empty s.description
          then []
          else codes "Description: " ++ (s.description ++ codes "\n"))
        ++ ((if is_empty s.triggers
              then []
              else codes "Triggers: " ++ (join s.triggers (codes ", ") ++ codes "\n"))
            ++ (s.content ++ codes "\n")))

unfoldable pub skill_prompts : List Skill → Text
unfolding skill_prompt
skill_prompts [] = []
skill_prompts (s ∷ ss) = skill_prompt s ++ skill_prompts ss

unfoldable pub skills_prompt : List Skill → Text
unfolding skill_prompts
skills_prompt [] = []
skills_prompt (s ∷ ss) = codes "\n\n--- Skills ---\n" ++ skill_prompts (s ∷ ss)
