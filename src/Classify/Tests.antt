-- ===== src/Classify/Tests.antt =====
-- Runs of the classification of includes.
use concurrency_tcp_server.Base.{
  ◌≡◌, refl, Bool, true, false, ◌&&◌, ◌||◌, List, [], ◌∷◌, Text, codes, one_of,
}
use concurrency_tcp_server.Include.{
  c_sys_header, cpp_sys_header, likely_my_header, possible_my_header, other_header,
}
use concurrency_tcp_server.Classify.{
  Extensions, common_suffixes, drop_common_suffixes, classify_include,
}
use concurrency_tcp_server.Classify.Kinds.{IsStem, drop_common_suffixes-IsStem}

abbrev defaults : Extensions
defaults = record { hpp_headers = []; valid_extensions = [] }

classify_include-c :
    classify_include defaults (codes "foo/foo.cc") (codes "stdio.h") true ≡ c_sys_header
unfolding classify_include concurrency_tcp_server.Base.text_eq
classify_include-c = refl

classify_include-cpp :
    classify_include defaults (codes "foo/foo.cc") (codes "string") true ≡ cpp_sys_header
unfolding classify_include concurrency_tcp_server.Base.text_eq
classify_include-cpp = refl

classify_include-mine :
    classify_include defaults (codes "foo/foo_test.cc") (codes "foo/foo-inl.h") false
    ≡ likely_my_header
unfolding classify_include concurrency_tcp_server.Base.text_eq
classify_include-mine = refl

classify_include-public :
    classify_include defaults (codes "foo/src/foo.cc") (codes "foo/public/foo.h") false
    ≡ likely_my_header
unfolding classify_include concurrency_tcp_server.Base.text_eq
classify_include-public = refl

classify_include-maybe :
    classify_include defaults
      (codes "foo/foo_unknown_extension.cc")
      (codes "bar/foo_other_ext.h")
      false
    ≡ possible_my_header
unfolding classify_include concurrency_tcp_server.Base.text_eq
classify_include-maybe = refl

classify_include-other :
    classify_include defaults (codes "foo/foo.cc") (codes "foo/bar.h") false ≡ other_header
unfolding classify_include concurrency_tcp_server.Base.text_eq
classify_include-other = refl

drop_common_suffixes-IsStem_example :
    IsStem
      (common_suffixes defaults)
      (codes "foo/foo-inl.h")
      (drop_common_suffixes defaults (codes "foo/foo-inl.h"))
drop_common_suffixes-IsStem_example = drop_common_suffixes-IsStem defaults (codes "foo/foo-inl.h")
