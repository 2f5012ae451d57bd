-- ===== src/Config/Effective.antt =====
-- src/simplecc/config.rs: the defaults of LanguageServer.jl under the settings of a configuration.
use simplecc.Base.{String, true, Option, ◌==◌, string_key, if◌then◌else◌}
use simplecc.Json.{Json, null, boolean, string, array, object, nil, cons, end, field}
use simplecc.Config.{ServerConfig}
use simplecc.Config.Merge.{merge_json}

abbrev pub julia_lint : Json
julia_lint = object (
    field "call" (boolean true) (
      field "iter" (boolean true) (
        field "nothingcomp" (boolean true) (
          field "constif" (boolean true) (
            field "lazy" (boolean true) (
              field "datadecl" (boolean true) (
                field "typeparam" (boolean true) (
                  field "modname" (boolean true) (
                    field "pirates" (boolean true) (
                      field "useoffuncargs" (boolean true) (
                        field "run" (boolean true) (
                          field "missingrefs" (string "none") (
                            field "disabledDirs"
                              (array (cons (string "docs") (cons (string "test") nil)))
                              end)))))))))))))

abbrev pub julia_inlay_hints : Json
julia_inlay_hints = object (
    field "static"
      (object (
        field "enabled" (boolean true) (
          field "variableTypes" (object (field "enabled" (boolean true) end))
            (field "parameterNames" (object (field "enabled" (string "literals") end)) end))))
      end)

abbrev pub julia_settings : Json
julia_settings = object (
    field "julia"
      (object (
        field "lint" julia_lint
          (field "completionmode" (string "qualify") (field "inlayHints" julia_inlay_hints end))))
      end)

unfoldable pub effective_settings : String → ServerConfig → Option Json
unfolding merge_json
effective_settings server_name server =
    merge_json (if server_name == "julia-lsp" then julia_settings else null) server.settings

unfoldable pub effective_initialization_options : String → ServerConfig → Option Json
unfolding merge_json
effective_initialization_options server_name server =
    merge_json
      (if server_name == "julia-lsp"
        then object (field "useFormatterConfigDefaults" (boolean true) end)
        else null)
      server.initialization_options
