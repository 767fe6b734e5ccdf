-- ===== src/RepoContext/Vocabulary.antt =====
-- The names and words that internal/repocontext knows.
use rojo.Base.{Bytes, List, [], ◌∷◌, bytes}

-- The keys of the map manifests.
unfoldable pub manifests : List Bytes
unfolding bytes
manifests =
    bytes "go.mod"
    ∷ bytes "package.json"
    ∷ bytes "Cargo.toml"
    ∷ bytes "pyproject.toml"
    ∷ bytes "requirements.txt"
    ∷ bytes "Gemfile"
    ∷ bytes "pom.xml"
    ∷ bytes "build.gradle"
    ∷ bytes "composer.json"
    ∷ bytes "Makefile"
    ∷ bytes "README.md"
    ∷ []

-- The keys of the map stopwords.
unfoldable pub stopwords : List Bytes
unfolding bytes
stopwords =
    bytes "a"
    ∷ bytes "an"
    ∷ bytes "the"
    ∷ bytes "and"
    ∷ bytes "or"
    ∷ bytes "but"
    ∷ bytes "if"
    ∷ bytes "then"
    ∷ bytes "for"
    ∷ bytes "to"
    ∷ bytes "of"
    ∷ bytes "in"
    ∷ bytes "on"
    ∷ bytes "at"
    ∷ bytes "by"
    ∷ bytes "with"
    ∷ bytes "from"
    ∷ bytes "into"
    ∷ bytes "is"
    ∷ bytes "are"
    ∷ bytes "was"
    ∷ bytes "be"
    ∷ bytes "been"
    ∷ bytes "it"
    ∷ bytes "this"
    ∷ bytes "that"
    ∷ bytes "these"
    ∷ bytes "those"
    ∷ bytes "as"
    ∷ bytes "add"
    ∷ bytes "adds"
    ∷ bytes "make"
    ∷ bytes "makes"
    ∷ bytes "fix"
    ∷ bytes "fixes"
    ∷ bytes "update"
    ∷ bytes "updates"
    ∷ bytes "change"
    ∷ bytes "new"
    ∷ bytes "use"
    ∷ bytes "using"
    ∷ bytes "should"
    ∷ bytes "when"
    ∷ bytes "where"
    ∷ bytes "all"
    ∷ bytes "any"
    ∷ bytes "not"
    ∷ bytes "no"
    ∷ bytes "so"
    ∷ bytes "we"
    ∷ bytes "i"
    ∷ bytes "you"
    ∷ bytes "it's"
    ∷ bytes "its"
    ∷ bytes "can"
    ∷ bytes "will"
    ∷ bytes "please"
    ∷ bytes "could"
    ∷ bytes "would"
    ∷ bytes "want"
    ∷ bytes "need"
    ∷ bytes "let"
    ∷ bytes "lets"
    ∷ bytes "just"
    ∷ bytes "also"
    ∷ bytes "there"
    ∷ bytes "here"
    ∷ bytes "some"
    ∷ bytes "more"
    ∷ bytes "than"
    ∷ bytes "have"
    ∷ bytes "has"
    ∷ bytes "had"
    ∷ bytes "get"
    ∷ bytes "gets"
    ∷ bytes "do"
    ∷ bytes "does"
    ∷ bytes "did"
    ∷ bytes "done"
    ∷ bytes "now"
    ∷ bytes "remove"
    ∷ bytes "removes"
    ∷ bytes "create"
    ∷ bytes "creates"
    ∷ bytes "implement"
    ∷ bytes "implements"
    ∷ bytes "support"
    ∷ bytes "handle"
    ∷ bytes "function"
    ∷ bytes "functions"
    ∷ bytes "func"
    ∷ bytes "method"
    ∷ bytes "methods"
    ∷ bytes "parameter"
    ∷ bytes "parameters"
    ∷ bytes "argument"
    ∷ bytes "arguments"
    ∷ bytes "takes"
    ∷ bytes "taking"
    ∷ bytes "return"
    ∷ bytes "returns"
    ∷ bytes "returning"
    ∷ bytes "call"
    ∷ bytes "calls"
    ∷ bytes "calling"
    ∷ bytes "called"
    ∷ bytes "string"
    ∷ bytes "strings"
    ∷ bytes "bool"
    ∷ bytes "boolean"
    ∷ bytes "code"
    ∷ bytes "line"
    ∷ bytes "lines"
    ∷ []
