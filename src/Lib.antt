-- ===== src/Lib.antt =====
-- zoekt: trigram based code search. A query is parsed and simplified (query/), and evaluated on each
-- index shard (the Go files at the repository's root): a match tree is built from it, and a loop over
-- the shard's documents asks the tree which document to look at next, prepares it there, and evaluates
-- it at rising costs until it is sure.
--
-- Which file models what:
--   Prelude          shared names, tests, lists, laws of bit_and.
--   Query/Syntax     the query types of query/query.go; the leaf types are one data type `Atom`, a nil
--                    interface is its constructor `absent`, and a set is the list of its keys.
--   Query/Meaning    the truth value of a query, given that of each leaf: the specification.
--   Query/Rewrite    Map, evalConstants, flatten and Simplify, with their proofs below.
--   Query/Mapping, Query/Expand   Map with a function on leaves, and ExpandFileContent.
--   Query/Parse      query/parse.go and query/bits.go: tokens (Token), literals and keywords (Literal),
--                    expressions (Expr), case flags and LowerRegexp of query/regexp.go (Case).
--   Query/Translate  RegexpToQuery of query/regexp.go.
--   Bits             utf8.DecodeRune, and of bits.go caseFoldingEqualsRunes, n-grams (Ngrams), the delta
--                    coding of integer lists, and the document sections (Deltas).
--   Hits             hititer.go: the in-memory, compressed and merging iterators; Distance has the
--                    iterator over pairs, and Laws the contract that its users rely on.
--   Docs             matchiter.go: nextFileIndex, ngramDocIterator (NgramIter) and trimBySectionMatchIter
--                    (Trim).
--   Index            section.go, toc.go, indexfile_linux.go, and of read.go and write.go what concerns
--                    sections: big-endian words (Words), files (File), writer and sections (Section), the
--                    table of contents (Toc), contents, newlines and document sections (Documents).
--   Builder          indexbuilder.go: newSearchableString (Postings), documents (Document), Add (Add),
--                    NewIndexBuilder (Setup), CheckText (CheckText); OffsetTables says what the tables are about.
--   Build            tagsToSections of build/ctags.go.
--   Provider         contentprovider.go: findOffset (Offset), fillContentMatches (Fill), findSection and
--                    matchScore (Score), with candidateMatch.line of matchiter.go (Line) and
--                    sort.Search (Search).
--   MatchTree        the tree types of matchtree.go and matchiter.go; Eval has the matches methods, Next
--                    has nextDoc and prepare, Panics the slices of the content on which matches panics;
--                    Meaning is the truth value that they are compared to.
--   Eval/Shard       indexData.simplify and indexData.List of eval.go.
--   Eval/Gather      gatherMatches of eval.go, on the candidates that its visit of the tree collects.
--   Eval/Search      the document loop of indexData.Search.
--   Tests            runs, and the theorems at concrete inputs.
--
-- Representation. The map `known` of results, whose keys are tree nodes, is an entry in each node:
-- newMatchTree makes each node once. Slices cut from the front are lists, and lastDoc = -1 is written
-- as next_free = lastDoc + 1. A panic or an error is a value of Access or `none`. Scores are natural
-- numbers, as the constants are whole. uint32 sums keep their wrap-around where the model has them. A Go
-- map of the index builder is an association list, and a line of a tag is 0 where it is not positive.
--
-- Fuel. evalConstants and Map call each other, so eval_constants recurs on the depth of the query, and
-- is shown to meet the equations of the source. The loop of Simplify has the size of the query as fuel,
-- the loop over the costs the four costs, and the document loop docCount + 1 rounds; each is shown to
-- end by its own test. nextFileIndex has twice the number of ends, findNext and the loop that
-- collects a file's candidates the number of hits that are left, the trimming loop the sections and
-- candidates that are left, sort.Search and fillContentMatches the number of elements, and the loops
-- over encoded bytes, runes, lines and query text their length. parseExpr and parseExprList call each other on
-- parts of the text, at most twice as deep as it is long.
--
-- Parameters: package regexp (FindAllIndex), package regexp/syntax (Parse and Regexp.String, and what
-- its operators match, Query.RegexpLanguage.IsRegexpLanguage), unicode.ToLower, the varints of
-- encoding/binary, sort.Sort in gatherMatches and in Add, fmt.Sprintf, filepath.Rel and hash/crc64 in
-- Add, text/template and sort.Strings in NewIndexBuilder; an io.Writer and an IndexFile, by records of
-- their operations; a matchIterator, by the record of laws MatchTree.Ready.IsMatchIterator, which
-- ngramDocIterator meets (Docs.NgramLaws); cancellation, the subrepositories of the documents, and of a
-- matching file its line matches and whether its score is important.
--
-- A slice past the length of a document's content is a panic, though Go allows it up to the capacity.
--
-- Not modelled: newMatchTree and the construction of iterators from an index, the metadata of a shard,
-- the index queue, the searcher over many shards, the web server, the commands, and file, network and
-- process access.
pub mod Prelude
pub mod Query
pub mod Bits
pub mod MatchTree
pub mod Hits
pub mod Docs
pub mod Index
pub mod Builder
pub mod Build
pub mod Provider
pub mod Eval
mod Tests
