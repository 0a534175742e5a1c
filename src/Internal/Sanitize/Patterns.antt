-- ===== src/Internal/Sanitize/Patterns.antt =====
-- internal/sanitize.go: the types of the pattern tables, and the tables, pattern by pattern.
use code_execution_engine.Common.{List, [], ◌∷◌, String, Text, codes}

pub record PatternCategory : Type 0 where
  pub name : Text
  pub description : Text
  pub patterns : List String

pub record LanguagePatterns : Type 0 where
  pub common : List PatternCategory
  pub language : List (Text × List PatternCategory)

unfoldable pub common_patterns : List PatternCategory
common_patterns =
    record {
      name = codes "systemOperations";
      description = codes "Dangerous system operations";
      patterns =
          "(?i)(os\\.Remove|os\\.RemoveAll)" ∷ "(?i)(net\\.Listen|net\\.Dial)"
          ∷ "(?i)(exec\\.Command)" ∷ "(?i)(syscall\\.Exec)" ∷ [];
    }
    ∷ record {
      name = codes "codeExecution";
      description = codes "Dynamic code execution";
      patterns = "eval\\(" ∷ "exec\\(" ∷ [];
    }
    ∷ record {
      name = codes "resourceDepletion";
      description = codes "Resource depletion attacks";
      patterns =
          "(?i)while\\s*\\(\\s*true\\s*\\)" ∷ "(?i)while\\s*\\(\\s*1\\s*\\)"
          ∷ "(?i)for\\s*\\(\\s*;;\\s*\\)" ∷ "(?i)for\\s*\\(;\\s*true\\s*;\\)"
          ∷ "(?i)\\.repeat\\s*\\(\\s*Infinity\\s*\\)"
          ∷ "\\[\\s*\\.\\.\\.Array\\s*\\(\\s*1e\\d+\\s*\\)\\s*\\]" ∷ "Array\\s*\\(\\s*1e\\d+\\s*\\)"
          ∷ "BigInt\\s*\\(\\s*Number\\.MAX_SAFE_INTEGER\\s*\\)\\s*\\*\\s*BigInt"
          ∷ "(?i)setTimeout\\s*\\(\\s*function\\s*\\(\\s*\\)\\s*{\\s*while\\s*\\(\\s*true\\s*\\)"
          ∷ [];
    }
    ∷ record {
      name = codes "forkBombs";
      description = codes "Fork bomb attacks";
      patterns =
          "(?i)while\\s*\\(\\s*true\\s*\\)\\s*{\\s*fork\\s*\\(\\s*\\)"
          ∷ "(?i)for\\s*\\(;;\\)\\s*{\\s*fork\\s*\\(\\s*\\)"
          ∷ ":\\s*\\(\\)\\s*{\\s*:\\|:\\s*&\\s*}\\s*;\\s*:"
          ∷ "define\\s+f\\s+\\(\\)\\s+\\(f\\)&\\s*f"
          ∷ "(?i)while\\s+1;\\s+do\\s+sh\\s+-c\\s+\"\\$0\\s+&\"" ∷ "Process\\.fork\\(\\)"
          ∷ "cluster\\.fork\\(\\)" ∷ "multiprocessing\\.Process" ∷ "pthread_create" ∷ [];
    }
    ∷ []

unfoldable pub python_patterns : List PatternCategory
python_patterns =
    record {
      name = codes "dangerousModules";
      description = codes "Dangerous Python modules";
      patterns =
          "import\\s+os\\s*$"
          ∷ "from\\s+os\\s+import\\s+(system|popen|execl|execle|execlp|execv|execve|execvp|execvpe|spawn)"
          ∷ "import\\s+subprocess" ∷ "import\\s+shutil" ∷ "import\\s+ctypes" ∷ "import\\s+sys"
          ∷ "__import__\\(['\"]os['\"]" ∷ [];
    }
    ∷ record {
      name = codes "dangerousOperations";
      description = codes "Dangerous Python operations";
      patterns =
          "open\\(.+,\\s*['\"]w['\"]" ∷ "__import__\\(" ∷ "globals\\(\\)\\." ∷ "locals\\(\\)\\."
          ∷ "os\\.system\\(" ∷ "os\\.exec\\(" ∷ "subprocess\\.Popen\\(" ∷ "os\\.fork\\("
          ∷ "threading\\.Thread\\s*\\(.*bomb\\(\\)" ∷ "for\\s*\\(.*\\s*os\\.fork\\(\\)"
          ∷ "while\\s*True\\s*:\\s*os\\.fork\\(\\)" ∷ [];
    }
    ∷ record {
      name = codes "pythonResourceDepletion";
      description = codes "Python resource depletion attacks";
      patterns =
          "while\\s+True\\s*:" ∷ "[[]\\s*0\\s*\\]\\s*\\*\\s*10\\*\\*\\d+"
          ∷ "range\\s*\\(\\s*10\\s*\\*\\*\\s*\\d{2,}\\s*\\)"
          ∷ "'\\s*'\\s*\\.join\\s*\\(\\s*\\[\\s*'A'\\s*\\]\\s*\\*\\s*10\\*\\*\\d+\\s*\\)"
          ∷ "multiprocessing\\.Pool\\s*\\(\\s*processes\\s*=\\s*\\d{3,}\\s*\\)"
          ∷ "threading\\.Thread\\s*\\(\\s*target\\s*=\\s*.+\\s*\\)\\s*\\.start\\s*\\(\\s*\\)"
          ∷ "\\{\\s*\\.\\*\\s*\\.\\*\\s*\\.\\*\\s*\\.\\*\\s*\\}" ∷ [];
    }
    ∷ []

unfoldable pub go_patterns : List PatternCategory
go_patterns =
    record {
      name = codes "infiniteLoops";
      description = codes "Potential infinite loops";
      patterns = "for\\s*{" ∷ "for\\s+true\\s*{" ∷ "for\\s+;\\s*;\\s*{" ∷ [];
    }
    ∷ record {
      name = codes "dangerousOsFunctions";
      description = codes "Dangerous OS functions";
      patterns =
          "os\\.Remove" ∷ "os\\.RemoveAll" ∷ "os\\.Chdir" ∷ "os\\.Chmod" ∷ "os\\.Chown"
          ∷ "os\\.Exit" ∷ "os\\.Link" ∷ "os\\.MkdirAll" ∷ "os\\.Rename" ∷ "os\\.Symlink" ∷ [];
    }
    ∷ record {
      name = codes "goResourceDepletion";
      description = codes "Go resource depletion attacks";
      patterns =
          "make\\s*\\(\\s*\\[\\]\\w+\\s*,\\s*\\d{8,}\\s*\\)"
          ∷ "go\\s+func\\s*\\(\\s*\\)\\s*{\\s*for\\s*{"
          ∷ "for\\s*\\i\\s*:=\\s*0\\s*;\\s*;\\s*i\\+\\+"
          ∷ "runtime\\.GOMAXPROCS\\s*\\(\\s*\\d{3,}\\s*\\)"
          ∷ "len\\s*\\(\\s*make\\s*\\(\\s*\\[\\]byte\\s*,\\s*1<<\\d{2,}\\s*\\)\\s*\\)" ∷ [];
    }
    ∷ []

unfoldable pub js_patterns : List PatternCategory
js_patterns =
    record {
      name = codes "dangerousModules";
      description = codes "Dangerous JS modules";
      patterns =
          "require\\(['\"]fs['\"]" ∷ "require\\(['\"]child_process['\"]"
          ∷ "require\\(['\"]http['\"]" ∷ "require\\(['\"]https['\"]" ∷ "require\\(['\"]os['\"]"
          ∷ "import\\s+.*\\s+from\\s+['\"]fs['\"]"
          ∷ "import\\s+.*\\s+from\\s+['\"]child_process['\"]" ∷ [];
    }
    ∷ record {
      name = codes "dangerousOperations";
      description = codes "Dangerous JS operations";
      patterns =
          "process\\.exit" ∷ "Function\\(.*\\)" ∷ "new Function" ∷ "window\\." ∷ "document\\."
          ∷ "localStorage" ∷ "sessionStorage" ∷ "indexedDB" ∷ "WebSocket" ∷ [];
    }
    ∷ record {
      name = codes "jsResourceDepletion";
      description = codes "JavaScript resource depletion attacks";
      patterns =
          "while\\s*\\(\\s*true\\s*\\)" ∷ "for\\s*\\(\\s*;;\\s*\\)"
          ∷ "setTimeout\\s*\\(\\s*function\\s*\\(\\s*\\)\\s*{\\s*location\\.reload\\s*\\(\\s*\\)"
          ∷ "\\.repeat\\s*\\(\\s*1e\\d+\\s*\\)" ∷ "Array\\s*\\(\\s*1e\\d+\\s*\\)"
          ∷ "new\\s+Array\\s*\\(\\s*1e\\d+\\s*\\)"
          ∷ "\\[\\s*\\.\\.\\.Array\\s*\\(\\s*1e\\d+\\s*\\)\\s*\\]"
          ∷ "(?i)\\(\\+\\[\\]\\+\\[\\]\\+\\[\\]\\+\\[\\]\\+\\[\\]\\+\\[\\]\\+\\[\\]" ∷ [];
    }
    ∷ []

unfoldable pub cpp_patterns : List PatternCategory
cpp_patterns =
    record {
      name = codes "dangerousOperations";
      description = codes "Dangerous C++ operations";
      patterns =
          "system\\(" ∷ "exec\\(" ∷ "fork\\(" ∷ "popen\\(" ∷ "delete\\s+.*\\s+;" ∷ "new\\s+.*\\s*;"
          ∷ "std::system" ∷ [];
    }
    ∷ record {
      name = codes "cppResourceDepletion";
      description = codes "C++ resource depletion attacks";
      patterns =
          "while\\s*\\(\\s*true\\s*\\)" ∷ "for\\s*\\(\\s*;;\\s*\\)"
          ∷ "malloc\\s*\\(\\s*UINT_MAX\\s*\\)" ∷ "calloc\\s*\\(\\s*UINT_MAX"
          ∷ "new\\s+char\\s*\\[\\s*UINT_MAX\\s*\\]" ∷ "std::vector<\\w+>\\s*\\(\\s*\\d{9,}\\s*\\)"
          ∷ "std::thread\\s*\\(\\s*\\[\\]\\s*\\(\\s*\\)\\s*{\\s*while\\s*\\(\\s*true\\s*\\)"
          ∷ "#include\\s*<fork.h>" ∷ [];
    }
    ∷ []

-- `DangerousPatterns`.
unfoldable pub dangerous_patterns : LanguagePatterns
dangerous_patterns = record {
  common = common_patterns;
  language =
      (codes "python", python_patterns)
      ∷ (codes "go", go_patterns)
      ∷ (codes "js", js_patterns)
      ∷ (codes "cpp", cpp_patterns)
      ∷ [];
}
