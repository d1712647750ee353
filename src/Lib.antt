-- ===== src/Lib.antt =====
-- A web full-text search engine: a crawler, an indexer, a store and a searcher. The crawler
-- takes link tokens from a scheduler, fetches pages and hands them to the indexer; what does
-- not fit the scheduler's buffer goes to a stack in a file.
--
-- The files model the code of these paths:
-- * FileQueue, FileQueue/*: internal/services/wfts/offline/scraper/fileQueue.go (Push and Pop
--   of the file stack; the file is the list of its bytes, and Faults says which calls of
--   package os fail).
-- * Heap, Heap/*: internal/utils/scheduler/mmheap.go (the min-max heap; bubbleUp, trickleDown,
--   Insert, GetMin, GetMax, DeleteMin, DeleteMax, tokens).
-- * Robots, Robots/*: internal/utils/parser/robotsTXT.go (ParseRobotsTxt and IsAllowed over
--   the bytes of the file).
-- * Spell, Spell/*: internal/services/wfts/offline/indexer/spellChecker/spellChecker.go
--   (levenshteinDistance, and BestReplacement over the scores of float64).
-- * Blocking, Blocking/*: internal/services/wfts/offline/scraper/roundTripper/bloom.go and
--   roundTripper.go (the Bloom filter, uploadTXTFilter after the fetch, isBlocked, RoundTrip;
--   Sum64 of hash/fnv and the transport are parameters).
-- * MinHash, MinHash/*: internal/services/wfts/offline/indexer/minHash.go (getWordNGrams and
--   CreateSignature; Sum64 of hash/fnv is a parameter, and so are the salts).
-- * Pool, Pool/*: internal/utils/scheduler/workerPool.go (Submit over the heap, and the
--   workers with the timer as a step relation in which a section under the lock is one step;
--   LinkToken.Serialize and the Stack interface are parameters; FileStack puts the stack of
--   fileQueue.go in).
-- * Ranking, Ranking/*: internal/services/wfts/online/searcher/preprocessingFeatures.go
--   (getMinQueryDistInDoc with its binary search, and boyerMoorAlgorithm).
-- * RateLimit, RateLimit/*: internal/services/wfts/offline/scraper/rateLimiter.go (a step
--   relation of handleLimits, GetToken and Shutdown; a run is an interleaving of their
--   communications; time is left out, a tick may come at any moment).
-- * Stemmer, Stemmer/*: internal/services/wfts/offline/indexer/textHandling/stemmer.go (the
--   tables, isStopWord, measure, stem, trimRuleSuffix, and TokenizeAndStem over the tokens;
--   the order in which a map is visited is a parameter).
-- * Tokenizer, Tokenizer/*: internal/services/wfts/offline/indexer/textHandling/tokenizer.go
--   (fragmentTokenize and entityTokenize over the bytes of a text of ASCII; what the regular
--   expressions match is a parameter).
-- * Urls, Urls/*: internal/services/wfts/offline/scraper/urlHandling.go (the functions of
--   net/url are the record UrlApi).
-- * Html, Html/*: internal/services/wfts/offline/scraper/htmlHandling.go (parseHTMLStream; the
--   tokens of golang.org/x/net/html are the list of HtmlToken).
-- * Codec, Codec/*: internal/repository/indexRepos.go, nGramRepo.go and shingleRepo.go
--   (prefixUpperBound, marshalWCP, unmarshalWCP, encPosEntry, decPosEntry, encCount, decCount,
--   encNGData, decNGData, makeBiGramKey, makeShingleKey), and the loop of
--   internal/services/wfts/online/searcher/searcher.go that looks for a header word among the
--   positions read.
-- * Crawl, Crawl/*: internal/services/wfts/offline/scraper/scraper.go, sitemapHandling.go and
--   the fetches of htmlHandling.go (ScrapeWithContext with fetchPageRulesAndOffers,
--   fetchHTMLcontent and getHTML; the network, the caches, the limiters and the indexer are
--   the record Services, the arithmetic of float64 is the record Float64).
-- * Storage, Storage/*: the database of internal/repository, package pebble, as a parameter,
--   and the numbers in its keys.
-- * Trigrams, Trigrams/*: internal/repository/nGramRepo.go and alloc of indexRepos.go
--   (IndexTriGrams and GetWordsByTGrams; the files are lists of entries, the cache of a shard
--   is a parameter).
-- * Indexer, Indexer/*: internal/services/wfts/offline/indexer/wordHandling.go
--   (HandleDocumentWords and calcSim; the repository is a parameter).
-- * Searcher, Searcher/*: internal/services/wfts/online/searcher/searcher.go and calcBM25
--   (Search; the index, sort.Slice and float64 are parameters).
-- * TextQuery, TextQuery/*: internal/services/wfts/offline/indexer/wordHandling.go
--   (HandleTextQuery with its count lenWords of the words, which may stay behind them; the
--   repository is a parameter).
-- * Common, Common/*: names and lemmas that the components share.
--
-- Loops run on fuel where they are not structural: the binary search on the length plus one,
-- since the part that is left shrinks in each round; the search of a word in a URL on the
-- length of the URL plus one, since the place rises in each round; bubbleUp on the index plus
-- one, which falls in each round; trickleDown on the length plus one, since the index rises.
-- The theorems show that the calls return, so the fuel is enough.
--
-- A priority is a float64 that the heap only compares; it is modelled by its place in the
-- order of the float64 values that are not NaN, a natural number. The level of an index is the
-- integer logarithm; the code computes it by math.Log2, which is exact at the sizes a heap in
-- memory has.
--
-- Not modelled: the repositories of documents, URLs and signatures, the posting lists and the
-- bigram frequencies, which read and write the database; the cache of hosts; the goroutines
-- that feed the scraper and the stop of the pool; what several workers do at once to the map
-- of the visited pages and to tokens that they share; and the logger, the settings, the window
-- and the HTTP handlers, and the calls of package http, which have no logic of their own.
pub mod Blocking
pub mod Codec
pub mod Common
pub mod Crawl
pub mod FileQueue
pub mod Heap
pub mod Html
pub mod Indexer
pub mod MinHash
pub mod Pool
pub mod Ranking
pub mod RateLimit
pub mod Robots
pub mod Searcher
pub mod Spell
pub mod Stemmer
pub mod Storage
pub mod TextQuery
pub mod Tokenizer
pub mod Trigrams
pub mod Urls
