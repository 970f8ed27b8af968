-- ===== src/LogWriter/Tests.antt =====
-- Lines of `memberlist` and their entries (cluster/zerolog_writer.go).
use qa_d.Base.{◌≡◌, refl, [], ◌∷◌, ◌++◌, codes, has_prefix, has_suffix, text_eq, trim_suffix}
use qa_d.LogWriter.{error, newline, entry_of, write_line}

-- Only one newline is taken off, and "[ERROR] " is no prefix.
write_line_newlines :
    (write_line [] (codes "[ERROR] lost" ++ newline ++ newline)).1
    ≡ (error, codes "[ERROR] lost" ++ newline) ∷ []
unfolding write_line entry_of has_prefix has_suffix text_eq trim_suffix
write_line_newlines = refl
