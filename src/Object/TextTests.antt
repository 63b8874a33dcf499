-- ===== src/Object/TextTests.antt =====
-- Commits and tags on small inputs.
use minus_sync.Prelude.{
  [], ◌∷◌, replicate, codes, ok, pos, negsuc, ◌≡◌, ◌≢◌, refl, arith, trim_space, trim_left,
  is_space, bytes_equal,
}
use minus_sync.Hash.{is_zero}
use minus_sync.Object.{type_commit}
use minus_sync.Object.Person.{is_negative}
use minus_sync.Object.Commit.{CommitData, serialize_commit, parse_commit}
use minus_sync.Object.Commit.Lines.{IsCommit}
use minus_sync.Object.Commit.RoundTrip.{parse_commit-serialize_commit, serialize_commit-twice}
use minus_sync.Object.Tag.{TagData, serialize_tag, parse_tag}
use minus_sync.Object.Tag.RoundTrip.{IsTag, parse_tag-serialize_tag}

abbrev western : CommitData
western = record {
  tree = replicate 32 1;
  parents = replicate 32 2 ∷ [];
  sequence = 7;
  author = codes "Ann B";
  email = codes "a@b";
  hostname = codes "host";
  timestamp = pos 1700000000;
  tz_offset = negsuc 17999;
  message = codes "two words";
}

western-IsCommit : IsCommit western
unfolding trim_space trim_left is_space is_zero bytes_equal
western-IsCommit = record {
  tree = omega arith;
  named = refl;
  parents = omega arith;
  sequence = omega arith;
  author = omega arith;
  author_mark = omega arith;
  author_trimmed = refl;
  email = omega arith;
  email_mark = omega arith;
  hostname = omega arith;
  timestamp = omega arith;
  tz_offset = omega arith;
  message_trimmed = refl;
}

parse_commit-serialize_commit_example : parse_commit (serialize_commit western).0 ≡ ok western
parse_commit-serialize_commit_example = parse_commit-serialize_commit western western-IsCommit

serialize_commit-twice_example :
    (serialize_commit (serialize_commit western).1).0 ≢ (serialize_commit western).0
serialize_commit-twice_example =
    serialize_commit-twice western western-IsCommit (unfold is_negative in refl)

abbrev release : TagData
release = record {
  object = replicate 32 1;
  object_type = type_commit;
  name = codes "v1";
  tagger = codes "Ann";
  email = codes "a@b";
  timestamp = pos 1700000000;
  message = codes "first";
}

release-IsTag : IsTag release
unfolding trim_space trim_left is_space is_zero bytes_equal
release-IsTag = record {
  object = omega arith;
  named = refl;
  known = omega arith;
  name = omega arith;
  tagger = omega arith;
  tagger_mark = omega arith;
  tagger_trimmed = refl;
  email = omega arith;
  email_mark = omega arith;
  timestamp = omega arith;
  message_trimmed = refl;
}

parse_tag-serialize_tag_example :
    parse_tag (serialize_tag release) ≡ ok (record release { timestamp = pos 0 })
parse_tag-serialize_tag_example = parse_tag-serialize_tag release release-IsTag
